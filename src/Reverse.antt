-- ===== src/Reverse.antt =====
-- web/reverse.go: the port forwards of the SSH server. The table revFwds holds pointers, which the
-- goroutines of the listeners share with it; the store of the forwards is modelled.
pub mod Laws
pub mod Sessions
pub mod Conn
mod Examples
use ssheasy.Base.{ℕ, suc, ◌==◌, Bool, true, false, [], ◌++◌, Option, none, some, if◌then◌else◌}
use ssheasy.Base.Int.{ℤ, pos}
use ssheasy.Base.Text.{Bytes, codes}
use ssheasy.Base.Decimal.{format_int}
use ssheasy.Base.Maps.{Map, insert, empty}

-- revFwd, without its listener
pub record RevFwd : Type 0 where
  pub host : Bytes
  pub port : ℤ
  pub stopped : Bool

-- revFwds as a table of pointers, what they point to, and the next new pointer.
pub record Forwards : Type 0 where
  pub rev_fwds : Map ℕ
  pub store : ℕ → RevFwd
  pub next : ℕ

abbrev pub set_at : ℕ → RevFwd → (ℕ → RevFwd) → ℕ → RevFwd
set_at n v f m = if n == m then v else f m

-- What the call does at once: an error for want of a session, a forward that is on again, or a
-- goroutine that listens on the key.
pub data Answer : Type 0 where
  no_session : Answer
  re_enabled : Bytes → Answer
  listens : Bytes → Answer

-- The key of a remote port.
unfoldable pub bind_key : Bool → ℤ → Bytes
bind_key bind_all port =
    (if bind_all then codes "0.0.0.0" else codes "127.0.0.1") ++ codes ":" ++ format_int port

abbrev retarget : Bytes → Bytes → ℤ → Forwards → Option ℕ → Answer × Forwards
retarget key host port s none = (listens key, s)
retarget key host port s (some n) = (
  re_enabled key,
  record s { store = set_at n (record { host = host; port = port; stopped = false }) s.store },
)

-- reverseForward, up to its goroutine.
unfoldable pub reverse_forward : Bool → ℤ → Bool → Bytes → ℤ → Forwards → Answer × Forwards
reverse_forward session remote_port bind_all host port s =
    let key = bind_key bind_all remote_port in
    if session then retarget key host port s (s.rev_fwds key) else (no_session, s)

-- The goroutine behind a Listen that succeeds: the new forward, and its entry in the table.
unfoldable pub listened : Bytes → Bytes → ℤ → Forwards → ℕ × Forwards
listened key host port s =
    let rf : RevFwd = record { host = host; port = port; stopped = false } in
    (
      s.next,
      record {
        rev_fwds = insert key s.next s.rev_fwds;
        store = set_at s.next rf s.store;
        next = suc s.next;
      },
    )

-- One round of a listener's loop: the target that the connection is forwarded to, or `none` if it is
-- closed at once.
unfoldable pub accept : ℕ → Forwards → Option (Bytes × ℤ)
accept n s = let rf = s.store n in if rf.stopped then none else some (rf.host, rf.port)

abbrev stop_at : Forwards → Option ℕ → Forwards
stop_at s none = s
stop_at s (some n) = record s { store = set_at n (record (s.store n) { stopped = true }) s.store }

-- stopReverseForward
unfoldable pub stop_reverse_forward : Bytes → Forwards → Forwards
stop_reverse_forward key s = stop_at s (s.rev_fwds key)

abbrev pub no_forwards : Forwards
no_forwards = record {
  rev_fwds = empty;
  store = λ n. record { host = []; port = pos 0; stopped = false };
  next = 0;
}

-- The states that the calls of the page and the goroutines reach, in any order.
pub data Reaches : Forwards → Type 0 where
  start : Reaches no_forwards
  forward :
      (session bind_all : Bool) (remote_port port : ℤ) (host : Bytes) (s : Forwards)
      → Reaches s
      → Reaches (reverse_forward session remote_port bind_all host port s).1
  listen :
      (key host : Bytes) (port : ℤ) (s : Forwards)
      → Reaches s
      → Reaches (listened key host port s).1
  stop : (key : Bytes) (s : Forwards) → Reaches s → Reaches (stop_reverse_forward key s)
