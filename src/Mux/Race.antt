-- ===== src/Mux/Race.antt =====
-- web/mux.go: calls of dialMuxed that run at the same time. What a call does under muxMu is one step,
-- what it does with a stream is one step, and a session may die between any two.
pub mod Laws
pub mod Sessions
pub mod Sole
use ssheasy.Base.{ℕ, zero, suc, ◌<◌, List, [], ◌∷◌, Option, none, some}
use ssheasy.Mux.Client.{
  Mux, Attempt, Fault, Dialed, failed, opened, mux_session, on_session, drop_session,
}

-- Where a call is, with what the outside does in its attempts that are still ahead.
pub data Phase : Type 0 where
  -- in front of the first muxSession
  starting : Attempt → Attempt → Phase
  -- with this session, in front of Open
  talking : ℕ → Attempt → Attempt → Phase
  -- the first openMuxStream failed
  dropping : Attempt → Phase
  -- in front of the second muxSession
  restarting : Attempt → Phase
  talking_again : ℕ → Attempt → Phase
  ended : Dialed → Phase

abbrev pub first_session : Attempt → Attempt → Dialed × Mux → Phase × Mux
first_session a b (failed f, m) = (dropping b, m)
first_session a b (opened s, m) = (talking s a b, m)

abbrev pub first_stream : Attempt → Dialed × Mux → Phase × Mux
first_stream b (failed f, m) = (dropping b, m)
first_stream b (opened s, m) = (ended (opened s), m)

abbrev pub second_session : Attempt → Dialed × Mux → Phase × Mux
second_session b (failed f, m) = (ended (failed f), m)
second_session b (opened s, m) = (talking_again s b, m)

abbrev pub second_stream : Dialed × Mux → Phase × Mux
second_stream (d, m) = (ended d, m)

-- The next step of a call of dialMuxed.
unfoldable pub step_call : Phase → Mux → Phase × Mux
step_call (starting a b) m = first_session a b (mux_session a m)
step_call (talking s a b) m = first_stream b (on_session a (opened s, m))
step_call (dropping b) m = (restarting b, drop_session m m.mux_sess)
step_call (restarting b) m = second_session b (mux_session b m)
step_call (talking_again s b) m = second_stream (on_session b (opened s, m))
step_call (ended d) m = (ended d, m)

-- A call that nothing interrupts, for a number of steps.
unfoldable pub alone : ℕ → Phase × Mux → Phase × Mux
alone zero x = x
alone (suc n) (p, m) = alone n (step_call p m)

abbrev pub in_front : Phase × Mux → List Phase → List Phase × Mux
in_front (p, m) ps = (p ∷ ps, m)

abbrev pub behind : Phase → List Phase × Mux → List Phase × Mux
behind p (ps, m) = (p ∷ ps, m)

-- The step of the call at an index.
unfoldable pub step_at : ℕ → List Phase → Mux → List Phase × Mux
step_at i [] m = ([], m)
step_at zero (p ∷ ps) m = in_front (step_call p m) ps
step_at (suc i) (p ∷ ps) m = behind p (step_at i ps m)

-- Steps of the calls with these indices, in this order.
unfoldable pub schedule : List ℕ → List Phase × Mux → List Phase × Mux
schedule [] x = x
schedule (i ∷ is) (ps, m) = schedule is (step_at i ps m)

-- The states that the page comes to: it calls dialMuxed, calls take steps, and sessions die.
pub data Reaches : List Phase → Mux → Type 0 where
  begin : Reaches [] (record { mux_sess = none; closed = []; next = 0 })
  calls : (a b : Attempt) (ps : List Phase) (m : Mux) → Reaches ps m → Reaches (starting a b ∷ ps) m
  moves :
      (i : ℕ) (ps : List Phase) (m : Mux)
      → Reaches ps m
      → Reaches (step_at i ps m).0 (step_at i ps m).1
  dies :
      (s : ℕ) (ps : List Phase) (m : Mux)
      → s < m.next
      → Reaches ps m
      → Reaches ps (record m { closed = s ∷ m.closed })
