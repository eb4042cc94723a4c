-- ===== src/Auth/Lockout.antt =====
-- proxy/auth.go: the per-address counter of failed logins and its lockout. An instant is a number of
-- nanoseconds since the zero time.Time, which is 0; counts and instants do not wrap.
pub mod Laws
use ssheasy.Base.{
  ℕ, ◌+◌, ◌-◌, ◌*◌, ◌^◌, Bool, true, false, ◌&&◌, Option, none, some, if◌then◌else◌, ltb, leb,
}
use ssheasy.Base.Text.{Bytes}
use ssheasy.Base.Maps.{Map, insert, erase}

abbrev pub max_login_fails : ℕ
max_login_fails = 10

-- 24 * time.Hour
abbrev pub login_lockout : ℕ
login_lockout = 24 * 3600 * 10 ^ 9

pub record LoginAttempts : Type 0 where
  pub fails : ℕ
  pub locked_until : ℕ
  pub last : ℕ

abbrev pub zero_attempts : LoginAttempts
zero_attempts = record { fails = 0; locked_until = 0; last = 0 }

-- loginByIP
abbrev pub LoginTable : Type 0
LoginTable = Map LoginAttempts

-- The test of the sweep: now.Sub(a.last) > loginLockout && now.After(a.lockedUntil)
unfoldable pub is_stale : ℕ → LoginAttempts → Bool
is_stale now a = ltb login_lockout (now - a.last) && ltb a.locked_until now

-- for k, a := range loginByIP { if … { delete(loginByIP, k) } }
unfoldable pub sweep : ℕ → LoginTable → LoginTable
sweep now m k = elim (m k) [ none ↦ none | some a ↦ if is_stale now a then none else some a ]

abbrev pub is_locked_at : ℕ → Option LoginAttempts → Bool
is_locked_at now none = false
is_locked_at now (some a) = ltb now a.locked_until

-- loginLocked: the answer, and the table after the sweep.
unfoldable pub login_locked : Bytes → ℕ → LoginTable → Bool × LoginTable
login_locked ip now m = (is_locked_at now (sweep now m ip), sweep now m)

-- One more failure. `now` is the first reading of the clock, `now'` the second.
unfoldable pub add_failure : ℕ → ℕ → LoginAttempts → LoginAttempts
add_failure now now' a =
    if leb max_login_fails (a.fails + 1)
    then record { fails = a.fails + 1; locked_until = now' + login_lockout; last = now }
    else record { fails = a.fails + 1; locked_until = a.locked_until; last = now }

abbrev pub or_zero : Option LoginAttempts → LoginAttempts
or_zero none = zero_attempts
or_zero (some a) = a

-- recordLogin
unfoldable pub record_login : Bytes → Bool → ℕ → ℕ → LoginTable → LoginTable
record_login ip ok now now' m =
    if ok then erase ip m else insert ip (add_failure now now' (or_zero (m ip))) m
