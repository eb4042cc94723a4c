-- ===== src/Splice.antt =====
-- The end of handleMuxStream of proxy/mux.go and of handleReverseConn of web/reverse.go, the same code in
-- both: two goroutines copy between a connection that was accepted and a target that was dialled, the
-- function waits for the first of them, and closes the target and then the other connection.
pub mod Ends
mod Examples
use ssheasy.Base.{ℕ, suc, ◌+◌, ◌<◌, Bool, true, false, ◌≡◌, [], ◌++◌}
use ssheasy.Base.Text.{Bytes}

-- A goroutine in io.Copy, in front of its send into `done`, and behind it.
pub data Phase : Type 0 where
  copying sending sent : Phase

-- The function in front of `<-done`, of each of the two deferred calls of Close, and behind them.
pub data Main : Type 0 where
  waiting closing_target closing_accepted returned : Main

-- Both goroutines, from the accepted connection to the target and back, the function, the values in the
-- channel `done`, and the bytes that arrived on both sides.
pub record Splice : Type 0 where
  pub forth : Phase
  pub back : Phase
  pub main : Main
  pub buffered : ℕ
  pub to_target : Bytes
  pub to_accepted : Bytes

-- Whether the target is open; a goroutine reads from it or writes to it.
abbrev pub is_open : Main → Bool
is_open waiting = true
is_open closing_target = true
is_open closing_accepted = false
is_open returned = false

-- make(chan struct{}, 2)
abbrev pub capacity : ℕ
capacity = 2

-- One step of one of the three. io.Copy may end at any time, with EOF or an error, and a Write to an open
-- connection is taken to return; a send waits for room in the channel.
pub data Step : Splice → Splice → Type 0 where
  forth_moves :
      (c : Splice) (b : Bytes)
      → c.forth ≡ copying
      → is_open c.main ≡ true
      → Step c (record c { to_target = c.to_target ++ b })
  back_moves :
      (c : Splice) (b : Bytes)
      → c.back ≡ copying
      → is_open c.main ≡ true
      → Step c (record c { to_accepted = c.to_accepted ++ b })
  forth_ends : (c : Splice) → c.forth ≡ copying → Step c (record c { forth = sending })
  back_ends : (c : Splice) → c.back ≡ copying → Step c (record c { back = sending })
  forth_sends :
      (c : Splice)
      → c.forth ≡ sending
      → c.buffered < capacity
      → Step c (record c { forth = sent; buffered = suc c.buffered })
  back_sends :
      (c : Splice)
      → c.back ≡ sending
      → c.buffered < capacity
      → Step c (record c { back = sent; buffered = suc c.buffered })
  receives :
      (c : Splice) (n : ℕ)
      → c.main ≡ waiting
      → c.buffered ≡ suc n
      → Step c (record c { main = closing_target; buffered = n })
  closes_target :
      (c : Splice) → c.main ≡ closing_target → Step c (record c { main = closing_accepted })
  closes_accepted : (c : Splice) → c.main ≡ closing_accepted → Step c (record c { main = returned })

abbrev pub started : Splice
started = record {
  forth = copying;
  back = copying;
  main = waiting;
  buffered = 0;
  to_target = [];
  to_accepted = [];
}

pub data Reaches : Splice → Type 0 where
  begin : Reaches started
  steps : (c c' : Splice) → Reaches c → Step c c' → Reaches c'
