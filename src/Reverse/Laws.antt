-- ===== src/Reverse/Laws.antt =====
-- A forward obeys the last call for its own key, and no other.
use ssheasy.Base.{ℕ, ◌<◌, Bool, true, false, ◌≡◌, ◌≢◌, Option, none, some, arith}
use ssheasy.Base.Int.{ℤ}
use ssheasy.Base.Text.{Bytes, bytes_eq_iff}
use ssheasy.Reverse.{
  Forwards, re_enabled, bind_key, reverse_forward, retarget, listened, accept, stop_at,
  stop_reverse_forward, Reaches, start, forward, listen, stop,
}

-- Every pointer of the table is in the store, and no two keys share one.
pub record IsSeparate (s : Forwards) : Type 0 where
  pub old : (k : Bytes) (n : ℕ) → s.rev_fwds k ≡ some n → n < s.next
  pub apart : (j k : Bytes) (n : ℕ) → s.rev_fwds j ≡ some n → s.rev_fwds k ≡ some n → j ≡ k

retarget-IsSeparate :
    (key host : Bytes) (port : ℤ) (s : Forwards) (o : Option ℕ)
    → IsSeparate s
    → IsSeparate (retarget key host port s o).1
retarget-IsSeparate key host port s none h = h
retarget-IsSeparate key host port s (some n) h = record { old = h.old; apart = h.apart }

stop_at-IsSeparate : (s : Forwards) (o : Option ℕ) → IsSeparate s → IsSeparate (stop_at s o)
stop_at-IsSeparate s none h = h
stop_at-IsSeparate s (some n) h = record { old = h.old; apart = h.apart }

reverse_forward-IsSeparate :
    (session bind_all : Bool) (remote_port port : ℤ) (host : Bytes) (s : Forwards)
    → IsSeparate s
    → IsSeparate (reverse_forward session remote_port bind_all host port s).1
unfolding reverse_forward
reverse_forward-IsSeparate false bind_all remote_port port host s h = h
reverse_forward-IsSeparate true bind_all remote_port port host s h =
    retarget-IsSeparate (bind_key bind_all remote_port) host port s
      (s.rev_fwds (bind_key bind_all remote_port)) h

listened-IsSeparate :
    (key host : Bytes) (port : ℤ) (s : Forwards)
    → IsSeparate s
    → IsSeparate (listened key host port s).1
unfolding listened
listened-IsSeparate key host port s h = record {
  old = λ k n e. ground (arith, h.old k n);
  apart = λ j k n e e'.
      ground (arith, h.old j n, h.old k n, h.apart j k n, bytes_eq_iff key j, bytes_eq_iff key k);
}

stop_reverse_forward-IsSeparate :
    (key : Bytes) (s : Forwards) → IsSeparate s → IsSeparate (stop_reverse_forward key s)
unfolding stop_reverse_forward
stop_reverse_forward-IsSeparate key s h = stop_at-IsSeparate s (s.rev_fwds key) h

-- In every state that can be reached, in any order of calls and of listeners that start, the pointers
-- of the table are in the store, and no two keys share one.
Reaches-IsSeparate : (s : Forwards) → Reaches s → IsSeparate s
Reaches-IsSeparate _ start = record {
  old = λ k n e. ground arith;
  apart = λ j k n e e'. ground arith;
}
Reaches-IsSeparate _ (forward session bind_all remote_port port host s r) =
    reverse_forward-IsSeparate session bind_all remote_port port host s (Reaches-IsSeparate s r)
Reaches-IsSeparate _ (listen key host port s r) =
    listened-IsSeparate key host port s (Reaches-IsSeparate s r)
Reaches-IsSeparate _ (stop key s r) = stop_reverse_forward-IsSeparate key s (Reaches-IsSeparate s r)

-- In every state with a forward for the key: stopping it drops the connections that its listener
-- accepts; calling for it again does not listen a second time and sends them to the new target.
pub accept_obeys :
    (s : Forwards) (bind_all : Bool) (remote_port port : ℤ) (host : Bytes) (n : ℕ)
    → let key = bind_key bind_all remote_port in
      s.rev_fwds key ≡ some n
      → let again = reverse_forward true remote_port bind_all host port s in
        (accept n (stop_reverse_forward key s) ≡ none)
        × (again.0 ≡ re_enabled key)
        × (accept n again.1 ≡ some (host, port))
unfolding accept stop_reverse_forward reverse_forward
accept_obeys s bind_all remote_port port host n e = ground arith

-- In every reachable state, neither changes what the listener of another key does.
pub accept-apart :
    (s : Forwards) (bind_all : Bool) (remote_port port : ℤ) (host : Bytes) (n : ℕ)
    → Reaches s
    → let key = bind_key bind_all remote_port in
      s.rev_fwds key ≡ some n
      → (other : Bytes) (m : ℕ) → s.rev_fwds other ≡ some m
      → other ≢ key
      → (accept m (stop_reverse_forward key s) ≡ accept m s)
        × (accept m (reverse_forward true remote_port bind_all host port s).1 ≡ accept m s)
unfolding accept stop_reverse_forward reverse_forward
accept-apart s bind_all remote_port port host n r e other m e' ne =
    let apart : n ≢ m = λ same. ne (
      (Reaches-IsSeparate s r).apart other (bind_key bind_all remote_port) m e'
        (ground (e, same, arith))) in
    ground arith
