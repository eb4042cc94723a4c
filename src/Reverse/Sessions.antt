-- ===== src/Reverse/Sessions.antt =====
-- web/reverse.go: the forwards over the SSH sessions of one page. initConnection of web/main.go sets
-- sshClient anew; a session that ends takes its listeners on the server with it, and their Accept fails.
use ssheasy.Base.{
  ℕ, suc, ◌==◌, ◌≤◌, Bool, false, ◌&&◌, ◌||◌, not, ◌≡◌, List, [], ◌∷◌, some, refl, All, arith,
}
use ssheasy.Base.Int.{ℤ}
use ssheasy.Base.Text.{Bytes, bytes_eq}
use ssheasy.Reverse.{
  Forwards, Answer, re_enabled, bind_key, reverse_forward, listened, stop_reverse_forward,
  no_forwards,
}

-- The goroutine of a listener: its key, and the session that it listens in.
pub record Listener : Type 0 where
  pub key : Bytes
  pub session : ℕ

-- The table of forwards, the number of the session in sshClient, 0 for nil, and the goroutines.
pub record Page : Type 0 where
  pub forwards : Forwards
  pub session : ℕ
  pub listeners : List Listener

-- A connection to the port on the server comes to a goroutine of the session that is up.
unfoldable pub is_served : Bytes → ℕ → List Listener → Bool
is_served key session [] = false
is_served key session (l ∷ ls) =
    (bytes_eq l.key key && l.session == session) || is_served key session ls

abbrev pub calls : Bool → ℤ → Bytes → ℤ → Page → Answer × Page
calls bind_all remote_port host port p =
    let (a, f) = reverse_forward (not (p.session == 0)) remote_port bind_all host port p.forwards in
    (a, record p { forwards = f })

-- Listen succeeds in the session of sshClient.
abbrev pub starts : Bytes → Bytes → ℤ → Page → Page
starts key host port p = record p {
  forwards = (listened key host port p.forwards).1;
  listeners = record { key = key; session = p.session } ∷ p.listeners;
}

abbrev pub gates : Bytes → Page → Page
gates key p = record p { forwards = stop_reverse_forward key p.forwards }

-- initConnection with a new session.
abbrev pub connects : Page → Page
connects p = record p { session = suc p.session }

pub data Reaches : Page → Type 0 where
  begin : Reaches (record { forwards = no_forwards; session = 0; listeners = [] })
  call :
      (bind_all : Bool) (remote_port port : ℤ) (host : Bytes) (p : Page)
      → Reaches p
      → Reaches (calls bind_all remote_port host port p).1
  start : (key host : Bytes) (port : ℤ) (p : Page) → Reaches p → Reaches (starts key host port p)
  stop : (key : Bytes) (p : Page) → Reaches p → Reaches (gates key p)
  reconnect : (p : Page) → Reaches p → Reaches (connects p)

-- No listener is of a session to come.
abbrev ArePast : ℕ → List Listener → Type 0
ArePast n ls = All (λ l. l.session ≤ n) ls

ArePast-suc : (n : ℕ) (ls : List Listener) → ArePast n ls → ArePast (suc n) ls
ArePast-suc n [] h = tt
ArePast-suc n (l ∷ ls) (h, hs) = (omega arith, ArePast-suc n ls hs)

Reaches-ArePast : (p : Page) → Reaches p → ArePast p.session p.listeners
Reaches-ArePast _ begin = tt
Reaches-ArePast _ (call bind_all remote_port port host p r) = Reaches-ArePast p r
Reaches-ArePast _ (start key host port p r) = (omega arith, Reaches-ArePast p r)
Reaches-ArePast _ (stop key p r) = Reaches-ArePast p r
Reaches-ArePast _ (reconnect p r) = ArePast-suc p.session p.listeners (Reaches-ArePast p r)

unserved :
    (key : Bytes) (n : ℕ) (ls : List Listener) → ArePast n ls → is_served key (suc n) ls ≡ false
unfolding is_served
unserved key n [] h = refl
unserved key n (l ∷ ls) (h, hs) = ground (arith, unserved key n ls hs)

-- After a new connection of the page, a call for a port that an earlier session forwarded is answered
-- as a success, and nothing listens for that port in the new session.
pub connects-stale :
    (p : Page) (bind_all : Bool) (remote_port port : ℤ) (host : Bytes) (n : ℕ)
    → Reaches p
    → let key = bind_key bind_all remote_port in
      p.forwards.rev_fwds key ≡ some n
      → let (a, q) = calls bind_all remote_port host port (connects p) in
        (a ≡ re_enabled key) × (is_served key q.session q.listeners ≡ false)
unfolding reverse_forward
connects-stale p bind_all remote_port port host n r e = (
  ground (arith, e),
  unserved (bind_key bind_all remote_port) p.session p.listeners (Reaches-ArePast p r),
)
