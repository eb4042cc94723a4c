-- ===== src/Mux/Race/Laws.antt =====
-- Calls of dialMuxed: one on its own, and two that meet.
use ssheasy.Base.{ℕ, zero, suc, true, false, ◌≡◌, refl, List, [], ◌∷◌, Option, none, some, arith}
use ssheasy.Mux.Client.{
  Mux, Attempt, Dialed, failed, opened, is_closed, mux_session, open_mux_stream, dial_muxed,
  on_session, drop_session, retry,
}
use ssheasy.Mux.Link.{IsSmooth}
use ssheasy.Mux.Race.{
  Phase, starting, talking, dropping, restarting, ended, first_session, first_stream,
  second_session, second_stream, step_call, alone, step_at, schedule,
}

-- A call that is over does not step_at.
over : (n : ℕ) (x : Dialed × Mux) → alone n (second_stream x) ≡ second_stream x
unfolding alone step_call
over zero (d, m) = refl
over (suc n) (d, m) = over n (d, m)

second_half :
    (n : ℕ) (b : Attempt) (x : Dialed × Mux)
    → alone (suc n) (second_session b x) ≡ second_stream (on_session b x)
unfolding alone step_call
second_half n b (failed f, m) = over n (failed f, m)
second_half n b (opened s, m) = over n (on_session b (opened s, m))

from_drop :
    (n : ℕ) (b : Attempt) (m : Mux)
    → alone (suc (suc (suc n))) (dropping b, m)
      ≡ second_stream (open_mux_stream b (drop_session m m.mux_sess))
unfolding alone step_call open_mux_stream
from_drop n b m = second_half n b (mux_session b (drop_session m m.mux_sess))

first_stream-retry :
    (b : Attempt) (x : Dialed × Mux) → alone 3 (first_stream b x) ≡ second_stream (retry b x)
first_stream-retry b (failed f, m) = from_drop 0 b m
first_stream-retry b (opened s, m) = over 3 (opened s, m)

first_session-retry :
    (a b : Attempt) (x : Dialed × Mux)
    → alone 4 (first_session a b x) ≡ second_stream (retry b (on_session a x))
unfolding alone step_call
first_session-retry a b (failed f, m) = from_drop 1 b m
first_session-retry a b (opened s, m) = first_stream-retry b (on_session a (opened s, m))

-- A call of dialMuxed that nothing interrupts takes at most five steps, and they are dialMuxed.
pub alone-dial_muxed :
    (a b : Attempt) (m : Mux) → alone 5 (starting a b, m) ≡ second_stream (dial_muxed a b m)
unfolding alone step_call dial_muxed open_mux_stream
alone-dial_muxed a b m = first_session-retry a b (mux_session a m)

drop_session-free :
    (m : Mux) (o : Option ℕ)
    → m.mux_sess ≡ o
    → ((drop_session m o).mux_sess ≡ none) × ((drop_session m o).next ≡ m.next)
drop_session-free m none e = (e, refl)
drop_session-free m (some s) e = (refl, refl)

-- The session of a call was given up; the call gets a stream, and the other call gives up its own.
race_rest :
    (b d : Attempt) (ps : List Phase) (m : Mux) (k : ℕ)
    → IsSmooth b
    → b.status ≡ some 1
    → m.mux_sess ≡ none
    → m.next ≡ k
    → let (qs, n) = schedule (0 ∷ 0 ∷ 1 ∷ []) (restarting b ∷ dropping d ∷ ps, m) in
      (qs ≡ ended (opened k) ∷ restarting d ∷ ps) × (is_closed k n.closed ≡ true)
unfolding schedule step_at step_call mux_session is_closed
race_rest b d ps m k h e free same =
    rw (free, schedule, step_at, step_call, mux_session)
      (rw (h.ws_opens, h.client_made)
        (rw (h.stream_opens, h.header_sent, e, same) (refl, ground arith)))

-- Two calls whose sessions no longer open streams, in this order of steps: both fail, the first one drops
-- muxSess and gets its stream on a new session, over a way that does not fail, and then the second one
-- closes that new session.
pub race_closes :
    (a b c d : Attempt) (s t : ℕ) (ps : List Phase) (m : Mux)
    → a.stream_opens ≡ false
    → c.stream_opens ≡ false
    → IsSmooth b
    → b.status ≡ some 1
    → let (qs, n) = schedule (0 ∷ 1 ∷ 0 ∷ 0 ∷ 0 ∷ 1 ∷ []) (talking s a b ∷ talking t c d ∷ ps, m) in
      (qs ≡ ended (opened m.next) ∷ restarting d ∷ ps) × (is_closed m.next n.closed ≡ true)
unfolding schedule step_at step_call
race_closes a b c d s t ps m x y h e =
    let (free, same) = drop_session-free m m.mux_sess refl in
    rw (x, y) (race_rest b d ps (drop_session m m.mux_sess) m.next h e free same)
