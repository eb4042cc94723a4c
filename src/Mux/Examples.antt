-- ===== src/Mux/Examples.antt =====
-- The theorems about the shared websocket at concrete inputs: a stand-in for JSON that takes the host
-- as the text.
use ssheasy.Base.{ℕ, zero, suc, true, false, ◌≡◌, [], ◌∷◌, ◌++◌, none, some, refl, arith, All, ◌<◌}
use ssheasy.Base.Int.{pos}
use ssheasy.Base.Text.{Bytes, codes}
use ssheasy.Access.Targets.{initial}
use ssheasy.Access.Targets.Laws.{IsIn}
use ssheasy.Mux.Header.{Json, write_mux_header}
use ssheasy.Mux.Server.{Network, handle_mux_stream}
use ssheasy.Mux.Server.Laws.{status, Dials, relayed, handle_mux_stream-write_mux_header}
use ssheasy.Mux.Race.{
  starting, talking, restarting, ended, schedule, begin, calls, moves, step_at, step_call,
}
use ssheasy.Mux.Race.Laws.{race_closes}
use ssheasy.Mux.Race.Sole.{session_of, IsOnKept, Reaches-IsOnKept}
use ssheasy.Mux.Client.{Mux, opened, Attempt, is_closed, mux_session}
use ssheasy.Mux.Client.Laws.{IsNumbered}

abbrev pub toy : Json
toy = record { marshal = λ host port. some host; unmarshal = λ s. some (s, pos 22) }

abbrev long : ℕ → Bytes
long zero = []
long (suc n) = b'h' ∷ long n

abbrev pub net : Network
net = record { connects = λ address. true; takes_status = true }

handle_mux_stream-write_mux_header_example :
    (wire : Bytes) × (write_mux_header toy (codes "git.example.org") (pos 22) ≡ some wire)
    × (let done =
          (handle_mux_stream toy net (codes "10.0.0.7") (wire ++ codes "SSH-2.0") initial).0 in
        (IsIn (codes "git.example.org") initial.blacklisted_targets
          → (status done ≡ some 0) × (¬ Dials done) × (relayed done ≡ none))
        × (¬ IsIn (codes "git.example.org") initial.blacklisted_targets
            → Dials done
              × (true ≡ true → (status done ≡ some 1) × (relayed done ≡ some (codes "SSH-2.0")))
              × (true ≡ false → (status done ≡ some 0) × (relayed done ≡ none))))
handle_mux_stream-write_mux_header_example =
    handle_mux_stream-write_mux_header toy net (codes "10.0.0.7") (codes "git.example.org")
      (codes "git.example.org") (codes "SSH-2.0") (pos 22) initial refl refl (omega arith)
      (omega arith) refl

abbrev pub shared : Mux
shared = record { mux_sess = some 3; closed = 2 ∷ []; next = 4 }

shared-IsNumbered : IsNumbered shared
shared-IsNumbered = record { kept = omega arith; gone = (omega arith, tt) }

abbrev pub told : ℕ → Attempt
told b = record {
  ws_opens = true;
  client_made = true;
  stream_opens = true;
  header_sent = true;
  status = some b;
}

abbrev silent : Attempt
silent = record (told 1) { stream_opens = false }

race_closes_example :
    let (qs, n) =
      schedule
        (0 ∷ 1 ∷ 0 ∷ 0 ∷ 0 ∷ 1 ∷ [])
        (talking 3 silent (told 1) ∷ talking 3 silent (told 1) ∷ [], shared) in
    (qs ≡ ended (opened 4) ∷ restarting (told 1) ∷ []) × (is_closed 4 n.closed ≡ true)
race_closes_example =
    race_closes silent (told 1) silent (told 1) 3 3 [] shared refl refl
      (record { ws_opens = refl; client_made = refl; stream_opens = refl; header_sent = refl }) refl

abbrev one : Mux
one = record { mux_sess = some 0; closed = []; next = 1 }

Reaches-IsOnKept_example :
    ((s : ℕ) → s < one.next → is_closed s one.closed ≡ false → one.mux_sess ≡ some s)
    × All (λ p. IsOnKept one (session_of p)) (ended (opened 0) ∷ [])
unfolding step_at step_call mux_session
Reaches-IsOnKept_example = Reaches-IsOnKept (ended (opened 0) ∷ []) one (
    moves 0 (talking 0 (told 1) (told 1) ∷ []) one (
      moves 0 (starting (told 1) (told 1) ∷ []) (record { mux_sess = none; closed = []; next = 0 })
        (calls (told 1) (told 1) [] (record { mux_sess = none; closed = []; next = 0 }) begin)))
