-- ===== src/Auth/Lockout/Laws.antt =====
-- The lockout of one address: when it begins, when it ends, and whom it concerns.
use ssheasy.Base.{ℕ, ◌+◌, ◌≤◌, ◌<◌, ◌≡◌, Bool, Option, none, some, arith}
use ssheasy.Base.Text.{Bytes}
use ssheasy.Auth.Lockout.{
  max_login_fails, login_lockout, LoginAttempts, LoginTable, sweep, login_locked, add_failure,
  or_zero, record_login,
}

-- What the table says of one address. A lock is set at the tenth failure and not before, and it
-- ends no earlier than `login_lockout` after the last failure.
pub record IsCounted (a : LoginAttempts) : Type 0 where
  pub some_fail : 0 < a.fails
  pub free : a.fails < max_login_fails → a.locked_until ≡ 0
  pub locked : max_login_fails ≤ a.fails → a.last + login_lockout ≤ a.locked_until

abbrev pub Counted? : Option LoginAttempts → Type 0
Counted? none = Unit
Counted? (some a) = IsCounted a

add_failure-IsCounted :
    (now now' : ℕ) (o : Option LoginAttempts)
    → now ≤ now'
    → Counted? o
    → IsCounted (add_failure now now' (or_zero o))
unfolding add_failure
add_failure-IsCounted now now' none h v = ground arith
add_failure-IsCounted now now' (some a) h v = ground arith

-- Every entry of the table is counted.
abbrev pub IsSound : LoginTable → Type 0
IsSound m = (ip : Bytes) → Counted? (m ip)

-- Both operations keep every entry of the table counted.
pub record_login-IsSound :
    (ip : Bytes) (ok : Bool) (now now' : ℕ) (m : LoginTable)
    → now ≤ now'
    → IsSound m
    → IsSound (record_login ip ok now now' m)
unfolding record_login
record_login-IsSound ip ok now now' m h sound j =
    ground (arith, sound j, add_failure-IsCounted now now' (m ip) h (sound ip))

pub login_locked-IsSound :
    (ip : Bytes) (now : ℕ) (m : LoginTable) → IsSound m → IsSound (login_locked ip now m).1
unfolding login_locked sweep
login_locked-IsSound ip now m sound j = ground (arith, sound j)
