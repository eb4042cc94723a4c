-- ===== src/Auth/Gate/Laws.antt =====
-- Who gets past the gate, and what the others are told.
use ssheasy.Base.{true, false, ◌≡◌, ◌↔◌, inl, inr, some, arith, Option-cases, Bool-cases}
use ssheasy.Base.Int.{ℤ}
use ssheasy.Base.Text.{Bytes, codes, has_prefix}
use ssheasy.Http.{Request}
use ssheasy.Auth.Session.Laws.{Signed, valid_session_iff}
use ssheasy.Auth.Config.{AuthConfig}
use ssheasy.Auth.Login.{Reply}
use ssheasy.Auth.Gate.{is_public_asset, authed, may_pass, auth_middleware}

module _ (hmac_sha256 : Bytes → Bytes → Bytes) (c : AuthConfig) where
  -- The request carries a session cookie that the server signed and that is still alive.
  abbrev pub HasSession : Request → ℤ → Type 0
  HasSession r now =
      (token : Bytes) × (r.cookie (codes "session") ≡ some token)
      × Signed hmac_sha256 c.sign_key now token

  authed_sound : (r : Request) (now : ℤ) → authed hmac_sha256 c r now ≡ true → HasSession r now
  unfolding authed
  authed_sound r now h = elim (Option-cases (r.cookie (codes "session"))) [
    | inl e ↦ cc (rw (e, authed) at h)
    | inr (token, e) ↦
        (token, e, (valid_session_iff hmac_sha256 c.sign_key now token).0 (rw (e, authed) at h))
  ]

  authed_complete : (r : Request) (now : ℤ) → HasSession r now → authed hmac_sha256 c r now ≡ true
  unfolding authed
  authed_complete r now (token, e, s) =
      rw (e, authed) ((valid_session_iff hmac_sha256 c.sign_key now token).1 s)

  -- With the gate up, a path outside the login pages and the public assets is served exactly to the
  -- requests with a live session of this server.
  pub may_pass_iff :
      (r : Request) (now : ℤ)
      → c.gate_enabled ≡ true
      → has_prefix r.path (codes "/auth/") ≡ false
      → is_public_asset r.path ≡ false
      → (may_pass hmac_sha256 c r now ≡ true) ↔ HasSession r now
  unfolding may_pass
  may_pass_iff r now g p a =
      (λ h. authed_sound r now (ground arith), λ s. ground (arith, authed_complete r now s))

  -- With the gate up, a request without a live session for a path outside the login pages and the
  -- public assets never reaches the handler behind the gate: the answer is the same whatever that
  -- handler is.
  pub auth_middleware_protects {ℓ} :
      {A : Type ℓ} (next next' : Request → A) (reply : Reply → A) (r : Request) (now : ℤ)
      → c.gate_enabled ≡ true
      → has_prefix r.path (codes "/auth/") ≡ false
      → is_public_asset r.path ≡ false
      → ¬ HasSession r now
      → auth_middleware hmac_sha256 c next reply r now
        ≡ auth_middleware hmac_sha256 c next' reply r now
  unfolding auth_middleware
  auth_middleware_protects next next' reply r now g p a h =
      elim (Bool-cases (may_pass hmac_sha256 c r now)) [
        | inl e ↦ absurd (h ((may_pass_iff r now g p a).0 e))
        | inr e ↦ rw (auth_middleware, e)
      ]
