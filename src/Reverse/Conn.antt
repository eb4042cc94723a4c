-- ===== src/Reverse/Conn.antt =====
-- web/reverse.go: handleReverseConn, the relay of one accepted connection, over con of web/main.go; and
-- what the loop of a listener does with a connection.
use ssheasy.Base.{ℕ, Bool, true, false, ◌≡◌, ◌≢◌, refl, List, [], ◌∷◌, Option, none, some}
use ssheasy.Base.Int.{ℤ}
use ssheasy.Base.Text.{Bytes}
use ssheasy.Reverse.{
  Forwards, re_enabled, bind_key, reverse_forward, accept, stop_reverse_forward, Reaches,
}
use ssheasy.Reverse.Laws.{accept_obeys, accept-apart}

-- What is done with an accepted connection; `copies` are the two copies, up to the end of the first.
pub data Event : Type 0 where
  dials : Bytes → ℤ → Event
  copies close_target close_accepted : Event

abbrev with_target : Bool → List Event
with_target false = close_accepted ∷ []
with_target true = copies ∷ close_target ∷ close_accepted ∷ []

-- handleReverseConn, where `con` says whether the target is reached.
unfoldable pub handle_reverse_conn : (Bytes → ℤ → Bool) → Bytes → ℤ → List Event
handle_reverse_conn con host port = dials host port ∷ with_target (con host port)

abbrev handled : (Bytes → ℤ → Bool) → Option (Bytes × ℤ) → List Event
handled con none = close_accepted ∷ []
handled con (some (host, port)) = handle_reverse_conn con host port

-- A round of the loop in reverseForward, with the goroutine that it starts.
unfoldable pub serve_accepted : (Bytes → ℤ → Bool) → ℕ → Forwards → List Event
serve_accepted con n s = handled con (accept n s)

-- The connection is closed at the end, and not before.
abbrev pub IsClosedLast : List Event → Type 0
IsClosedLast [] = ⊥
IsClosedLast (e ∷ []) = e ≡ close_accepted
IsClosedLast (e ∷ es) = (e ≢ close_accepted) × IsClosedLast es

dials-ne : {host : Bytes} {port : ℤ} → dials host port ≢ close_accepted
dials-ne e = cc

copies-ne : copies ≢ close_accepted
copies-ne e = cc

close_target-ne : close_target ≢ close_accepted
close_target-ne e = cc

with_target-IsClosedLast :
    (host : Bytes) (port : ℤ) (reached : Bool)
    → IsClosedLast (dials host port ∷ with_target reached)
with_target-IsClosedLast host port false = (dials-ne, refl)
with_target-IsClosedLast host port true = (dials-ne, (copies-ne, (close_target-ne, refl)))

handle_reverse_conn-IsClosedLast :
    (con : Bytes → ℤ → Bool) (host : Bytes) (port : ℤ)
    → IsClosedLast (handle_reverse_conn con host port)
unfolding handle_reverse_conn
handle_reverse_conn-IsClosedLast con host port = with_target-IsClosedLast host port (con host port)

handled-IsClosedLast :
    (con : Bytes → ℤ → Bool) (o : Option (Bytes × ℤ)) → IsClosedLast (handled con o)
handled-IsClosedLast con none = refl
handled-IsClosedLast con (some (host, port)) = handle_reverse_conn-IsClosedLast con host port

-- In every reachable state with a forward for the key: a stopped forward closes what its listener
-- accepts and dials nothing; after a call for it again, a connection is taken to the new target, with no
-- second listener; neither changes what happens to the connections of another key; and every
-- connection is closed at its end.
pub serve_accepted_obeys :
    (con : Bytes → ℤ → Bool) (s : Forwards) (bind_all : Bool) (remote_port port : ℤ) (host : Bytes)
    (n : ℕ)
    → Reaches s
    → let key = bind_key bind_all remote_port in
      s.rev_fwds key ≡ some n
      → let stopped = stop_reverse_forward key s in
        let again = reverse_forward true remote_port bind_all host port s in
        (serve_accepted con n stopped ≡ close_accepted ∷ [])
        × (again.0 ≡ re_enabled key)
        × (serve_accepted con n again.1 ≡ handle_reverse_conn con host port)
        × ((other : Bytes) (m : ℕ)
            → s.rev_fwds other ≡ some m
            → other ≢ key
            → (serve_accepted con m stopped ≡ serve_accepted con m s)
              × (serve_accepted con m again.1 ≡ serve_accepted con m s))
        × IsClosedLast (serve_accepted con n s)
unfolding serve_accepted
serve_accepted_obeys con s bind_all remote_port port host n r e =
    let (shut, same, to) = accept_obeys s bind_all remote_port port host n e in
    (
      rw (shut) refl,
      same,
      rw (to) refl,
      λ other m e' ne.
          let (apart, apart') = accept-apart s bind_all remote_port port host n r e other m e' ne in
          (rw (apart) refl, rw (apart') refl),
      handled-IsClosedLast con (accept n s),
    )
