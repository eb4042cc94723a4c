-- ===== src/Relay/Copies.antt =====
-- proxy/main.go: the end of handleWss, where two goroutines copy between the websocket and the target and
-- handleWss waits for what they report. The target's connection is closed by the goroutine that writes
-- to it, and so is the websocket, so each goroutine's phase says whether its destination is open. A
-- goroutine that takes no further step is one whose Read or Write blocks.
pub mod Laws
use ssheasy.Base.{
  ℕ, suc, ◌≤◌, Bool, true, false, ◌≡◌, List, [], ◌∷◌, ◌++◌, Option, none, some, length, take,
}
use ssheasy.Base.Int.{ℤ, pos}
use ssheasy.Base.Text.{Bytes, codes}
use ssheasy.Base.Decimal.{format_int}
use ssheasy.Traffic.{limited_write}
use ssheasy.Traffic

-- From the websocket to the target, and back.
pub data Dir : Type 0 where
  up down : Dir

-- conStat, with the bytes counted
pub record ConStat : Type 0 where
  pub dir : Dir
  pub err : Option Bytes
  pub bytes : ℕ

-- In io.Copy, in front of Close, in front of the send to `stats`, and behind it, with the error of io.Copy.
pub data Phase : Type 0 where
  copying : Phase
  closing telling told : Option Bytes → Phase

-- One of the goroutines: what its limitedWriter counted and did, and the bytes that arrived.
pub record Side : Type 0 where
  pub phase : Phase
  pub written : ℕ
  pub steps : List Traffic.Step
  pub delivered : Bytes

abbrev pub chunk_len : ℕ
chunk_len = 32768

-- limitedWriter.Write of the bytes `b`, of which the first `n` arrive.
abbrev pub receive : ℤ → Bytes → ℕ → Phase → Side → Side
receive free_limit b n p x =
    let (written', now) = limited_write free_limit x.written b in
    record {
      phase = p;
      written = written';
      steps = x.steps ++ now;
      delivered = x.delivered ++ take n b;
    }

abbrev pub with_phase : Phase → Side → Side
with_phase p x = record x { phase = p }

-- A step of a goroutine up to its Close. io.Copy moves at most 32768 bytes at once; a write may end
-- early, with an error; a read ends with EOF, which is no error of io.Copy, or with an error. A
-- source that is shut gives its reader no bytes and no EOF.
pub data CopyStep (free_limit : ℤ) (open_source : Bool) : Side → Side → Type 0 where
  moves :
      (x : Side) (b : Bytes)
      → x.phase ≡ copying
      → open_source ≡ true
      → length b ≤ chunk_len
      → CopyStep free_limit open_source x (receive free_limit b (length b) copying x)
  write_ends :
      (x : Side) (b : Bytes) (n : ℕ) (e : Bytes)
      → x.phase ≡ copying
      → open_source ≡ true
      → length b ≤ chunk_len
      → CopyStep free_limit open_source x (receive free_limit b n (closing (some e)) x)
  read_ends :
      (x : Side)
      → x.phase ≡ copying
      → open_source ≡ true
      → CopyStep free_limit open_source x (with_phase (closing none) x)
  read_fails :
      (x : Side) (e : Bytes)
      → x.phase ≡ copying
      → CopyStep free_limit open_source x (with_phase (closing (some e)) x)
  closes :
      (x : Side) (e : Option Bytes)
      → x.phase ≡ closing e
      → CopyStep free_limit open_source x (with_phase (telling e) x)

-- Whether the goroutine's destination is open.
abbrev pub is_open : Phase → Bool
is_open copying = true
is_open (closing e) = true
is_open (telling e) = false
is_open (told e) = false

-- Both goroutines, and what handleWss received, in order.
pub record Copies : Type 0 where
  pub up_side : Side
  pub down_side : Side
  pub stats : List ConStat

abbrev pub conn_stat : Dir → Option Bytes → Side → ConStat
conn_stat d e x = record { dir = d; err = e; bytes = length x.delivered }

-- One step of one goroutine. The target's connection gives nothing once this program has closed it, but
-- a websocket that this program closed may still yield the frames that it has buffered. handleWss waits for two values on `stats`, so that a send goes through.
pub data Step (free_limit : ℤ) : Copies → Copies → Type 0 where
  up_copies :
      (c : Copies) (y : Side)
      → CopyStep free_limit true c.up_side y
      → Step free_limit c (record c { up_side = y })
  down_copies :
      (c : Copies) (y : Side)
      → CopyStep free_limit (is_open c.up_side.phase) c.down_side y
      → Step free_limit c (record c { down_side = y })
  up_tells :
      (c : Copies) (e : Option Bytes)
      → c.up_side.phase ≡ telling e
      → Step free_limit c (record c {
        up_side = with_phase (told e) c.up_side;
        stats = c.stats ++ conn_stat up e c.up_side ∷ [];
      })
  down_tells :
      (c : Copies) (e : Option Bytes)
      → c.down_side.phase ≡ telling e
      → Step free_limit c (record c {
        down_side = with_phase (told e) c.down_side;
        stats = c.stats ++ conn_stat down e c.down_side ∷ [];
      })

abbrev fresh : Side
fresh = record { phase = copying; written = 0; steps = []; delivered = [] }

-- The state when the two goroutines start.
abbrev pub started : Copies
started = record { up_side = fresh; down_side = fresh; stats = [] }

-- A number of steps under the limit `free_limit`.
pub data Runs (free_limit : ℤ) : ℕ → Copies → Copies → Type 0 where
  stays : (c : Copies) → Runs free_limit 0 c c
  then_step :
      (n : ℕ) (c c' c'' : Copies)
      → Runs free_limit n c c'
      → Step free_limit c' c''
      → Runs free_limit (suc n) c c''

-- %v of an error
abbrev pub show_error : Option Bytes → Bytes
show_error none = codes "<nil>"
show_error (some e) = e

abbrev pub copied : ConStat → ConStat → Bytes
copied u d =
    codes "proxy finished copied ("
    ++ format_int (pos u.bytes)
    ++ codes "/"
    ++ format_int (pos d.bytes)
    ++ codes ")bytes anyerrors ("
    ++ show_error u.err
    ++ codes ","
    ++ show_error d.err
    ++ codes ")"

abbrev pub in_order : Dir → ConStat → ConStat → Bytes
in_order up s1 s2 = copied s1 s2
in_order down s1 s2 = copied s2 s1

-- The message of the audit log, when both have reported.
unfoldable pub audit_message : List ConStat → Option Bytes
audit_message [] = none
audit_message (s1 ∷ []) = none
audit_message (s1 ∷ s2 ∷ ss) = some (in_order s1.dir s1 s2)
