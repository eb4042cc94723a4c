-- ===== src/Auth/Login/Laws.antt =====
-- When a session is granted, and how many wrong codes an address can try.
use ssheasy.Base.{
  ℕ, ◌+◌, ◌-◌, ◌≤◌, ◌<◌, Bool, true, false, ◌≡◌, sym, subst, List, [], ◌∷◌, Option, none, some,
  arith, if◌then◌else◌, ◌==◌, ◌&&◌, All, Bool-cases, ◌⊎◌, inl, inr,
}
use ssheasy.Base.Int.{pos, ◌+ℤ◌}
use ssheasy.Base.Text.{Bytes, codes, bytes_eq, bytes_eq_iff, trim_space}
use ssheasy.Http.{Request, method_post}
use ssheasy.Auth.Lockout.{
  max_login_fails, login_lockout, LoginAttempts, LoginTable, login_locked, sweep, is_stale,
  is_locked_at, record_login, add_failure, or_zero,
}
use ssheasy.Auth.ClientIp.{client_ip}
use ssheasy.Auth.Session.{new_session}
use ssheasy.Auth.Totp.Laws.{InWindow, verify_totp_iff}
use ssheasy.Auth.Config.{AuthConfig}
use ssheasy.Auth.Login.{
  Reply, form, redirect, Cookie, Instants, grant, code_ok, verify_post, handle_post, handle_login,
}

-- All readings of the clock in the request fall in the window that begins at `start`.
pub record IsWithin (start : ℕ) (t : Instants) : Type 0 where
  pub from_start : start ≤ t.recorded
  pub set_after : t.recorded ≤ t.locked
  pub in_time : t.checked < start + login_lockout

-- The failures that an address may still record.
abbrev pub left : Option LoginAttempts → ℕ
left none = max_login_fails
left (some a) = max_login_fails - a.fails

-- Its last failure lies in the window, and so does the whole of its lock, if it has one.
abbrev pub InBudget : ℕ → Option LoginAttempts → Type 0
InBudget start none = Unit
InBudget start (some a) =
    (start ≤ a.last) × (max_login_fails ≤ a.fails → start + login_lockout ≤ a.locked_until)

abbrev pub is_rejection : Reply → Bool
is_rejection (form s msg) = s == 401
is_rejection _ = false

module _ (hmac_sha1 hmac_sha256 : Bytes → Bytes → Bytes) (c : AuthConfig) where
  -- The number of requests from `ip` that are told that their code is wrong.
  unfoldable pub rejections : Bytes → LoginTable → List (Request × Instants) → ℕ
  rejections ip m [] = 0
  rejections ip m ((r, t) ∷ ps) =
      let (reply, m') = handle_login hmac_sha1 hmac_sha256 c r t m in
      (if bytes_eq (client_ip r) ip && is_rejection reply then 1 else 0) + rejections ip m' ps

  -- The requests fall in one window of `login_lockout`, and those from `ip` have a wrong code.
  abbrev pub AreGuesses : Bytes → ℕ → List (Request × Instants) → Type 0
  AreGuesses ip start = All (λ p.
      IsWithin start p.1
      × (bytes_eq (client_ip p.0) ip ≡ true → code_ok hmac_sha1 hmac_sha256 c p.0 p.1 ≡ false))

  -- No entry with a budget is swept.
  pub sweep-budget :
      (ip : Bytes) (start now : ℕ) (m : LoginTable)
      → now < start + login_lockout
      → InBudget start (m ip)
      → sweep now m ip ≡ m ip
  unfolding sweep is_stale
  sweep-budget ip start now m h b = ground arith

  -- One more failure of an address that is not locked.
  pub fail-budget :
      (start now now' : ℕ) (o : Option LoginAttempts)
      → start ≤ now
      → now ≤ now'
      → InBudget start o
      → InBudget start (some (add_failure now now' (or_zero o)))
  unfolding add_failure
  fail-budget start now now' none h k b = ground arith
  fail-budget start now now' (some a) h k b = ground arith

  -- An address with nothing left is locked.
  pub locked-budget :
      (start now : ℕ) (o : Option LoginAttempts)
      → now < start + login_lockout
      → InBudget start o
      → is_locked_at now o ≡ false
      → 0 < left o
  locked-budget start now none h b e = omega arith
  locked-budget start now (some a) h b e = ground arith

  pub left-fail :
      (now now' : ℕ) (o : Option LoginAttempts)
      → left (some (add_failure now now' (or_zero o))) + 1 ≤ left o ⊎ (left o ≡ 0)
  unfolding add_failure
  left-fail now now' none = ground arith
  left-fail now now' (some a) = ground arith

  spend_post :
      (start : ℕ) (r : Request) (t : Instants) (m : LoginTable)
      → IsWithin start t
      → code_ok hmac_sha1 hmac_sha256 c r t ≡ false
      → InBudget start (m (client_ip r))
      → let (reply, m') = handle_post hmac_sha1 hmac_sha256 c r t m in
        InBudget start (m' (client_ip r))
        × ((if is_rejection reply then 1 else 0) + left (m' (client_ip r)) ≤ left (m (client_ip r)))
  unfolding handle_post verify_post login_locked record_login
  spend_post start r t m w wrong b = ground (
    arith,
    sweep-budget (client_ip r) start t.checked m w.in_time b,
    fail-budget start t.recorded t.locked (m (client_ip r)) w.from_start w.set_after b,
    locked-budget start t.checked (m (client_ip r)) w.in_time b,
    left-fail t.recorded t.locked (m (client_ip r)),
    bytes_eq_iff (client_ip r) (client_ip r),
  )

  -- A request from another address leaves the entry alone.
  other_post :
      (ip : Bytes) (start : ℕ) (r : Request) (t : Instants) (m : LoginTable)
      → IsWithin start t
      → bytes_eq (client_ip r) ip ≡ false
      → InBudget start (m ip)
      → (handle_post hmac_sha1 hmac_sha256 c r t m).1 ip ≡ m ip
  unfolding handle_post verify_post login_locked record_login
  other_post ip start r t m w e b = ground (arith, sweep-budget ip start t.checked m w.in_time b)

  -- One request spends at most what it takes from the budget, and keeps it.
  spend :
      (ip : Bytes) (start : ℕ) (r : Request) (t : Instants) (m : LoginTable)
      → IsWithin start t
      → (bytes_eq (client_ip r) ip ≡ true → code_ok hmac_sha1 hmac_sha256 c r t ≡ false)
      → InBudget start (m ip)
      → let (reply, m') = handle_login hmac_sha1 hmac_sha256 c r t m in
        InBudget start (m' ip)
        × ((if bytes_eq (client_ip r) ip && is_rejection reply then 1 else 0) + left (m' ip)
            ≤ left (m ip))
  unfolding handle_login
  spend ip start r t m w wrong b = elim (Bool-cases (bytes_eq (client_ip r) ip)) [
    | inl own ↦
        let same : client_ip r ≡ ip = (bytes_eq_iff (client_ip r) ip).0 own in
        ground (
          arith,
          same,
          spend_post start r t m w (wrong own) (subst (λ k. InBudget start (m k)) (sym same) b),
        )
    | inr other ↦ ground (arith, other_post ip start r t m w other b)
  ]

  -- In any window of 24 hours in which no request of an address carries a right code, whatever the other
  -- addresses do, an address whose requests come one after the other gets at most as many wrong codes
  -- checked as its counter has left. It has ten left for a new
  -- address; for another one, its last failure is taken to lie in the window, and its lock, if it has
  -- one, to last to the end of the window.
  pub rejections_bound :
      (ip : Bytes) (start : ℕ) (m : LoginTable) (ps : List (Request × Instants))
      → AreGuesses ip start ps
      → InBudget start (m ip)
      → rejections ip m ps ≤ left (m ip)
  unfolding rejections
  rejections_bound ip start m [] g b = omega arith
  rejections_bound ip start m ((r, t) ∷ ps) ((w, wrong), g) b =
      let (b', spent) = spend ip start r t m w wrong b in
      omega
        (arith, rejections_bound ip start (handle_login hmac_sha1 hmac_sha256 c r t m).1 ps g b')

  -- What has to hold for a session to be granted.
  pub record IsEntitled (r : Request) (t : Instants) (m : LoginTable) : Type 0 where
    pub posted : r.method ≡ method_post
    pub free : (login_locked (client_ip r) t.checked m).0 ≡ false
    pub right :
        InWindow hmac_sha1 c.totp_seed (pos t.verified) (trim_space (r.form_value (codes "code")))

  code_right :
      (r : Request) (t : Instants) (m : LoginTable) (s : ℕ) (l : Bytes) (k : Cookie)
      → (handle_login hmac_sha1 hmac_sha256 c r t m).0 ≡ redirect s l (some k)
      → code_ok hmac_sha1 hmac_sha256 c r t ≡ true
  unfolding handle_login handle_post verify_post
  code_right r t m s l k h = ground arith

  entitled :
      (r : Request) (t : Instants) (m : LoginTable) (s : ℕ) (l : Bytes) (k : Cookie)
      → (handle_login hmac_sha1 hmac_sha256 c r t m).0 ≡ redirect s l (some k)
      → IsEntitled r t m
  unfolding handle_login handle_post verify_post
  entitled r t m s l k h = record {
    posted = ground (arith, bytes_eq_iff r.method method_post);
    free = ground arith;
    right =
        (verify_totp_iff hmac_sha1 c.totp_seed _ (pos t.verified)).0
          (unfold code_ok in code_right r t m s l k h);
  }

  -- A session is granted only to a POST from an address that is not locked, with a code of the current
  -- step or a neighbour; the cookie is then a session token for the configured lifetime.
  pub handle_login_grants :
      (r : Request) (t : Instants) (m : LoginTable) (s : ℕ) (l : Bytes) (k : Cookie)
      → (handle_login hmac_sha1 hmac_sha256 c r t m).0 ≡ redirect s l (some k)
      → IsEntitled r t m
        × (k.value ≡ new_session hmac_sha256 c.sign_key (pos t.issued +ℤ c.session_ttl))
  unfolding handle_login handle_post verify_post grant
  handle_login_grants r t m s l k h = (entitled r t m s l k h, ground arith)
