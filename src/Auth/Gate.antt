-- ===== src/Auth/Gate.antt =====
-- proxy/auth.go: authMiddleware, which stands in front of every handler, isPublicAsset and authed.
pub mod Laws
use ssheasy.Base.{ℕ, Bool, true, false, ◌||◌, ◌&&◌, not, Option, none, some, if◌then◌else◌}
use ssheasy.Base.Int.{ℤ}
use ssheasy.Base.Text.{Bytes, codes, bytes_eq, has_prefix, has_suffix, contains}
use ssheasy.Http.{Request, get, method_get}
use ssheasy.Auth.Session.{valid_session}
use ssheasy.Auth.Config.{AuthConfig}
use ssheasy.Auth.Login.{Reply, status, redirect}

-- isPublicAsset
unfoldable pub is_public_asset : Bytes → Bool
is_public_asset p =
    bytes_eq p (codes "/manifest.webmanifest")
    || bytes_eq p (codes "/favicon.ico")
    || bytes_eq p (codes "/icon.svg")
    || (has_prefix p (codes "/icon-") && has_suffix p (codes ".png"))

module _ (hmac_sha256 : Bytes → Bytes → Bytes) (c : AuthConfig) where
  -- authed at the instant `now`
  unfoldable pub authed : Request → ℤ → Bool
  authed r now = elim (r.cookie (codes "session")) [
    | none ↦ false
    | some token ↦ valid_session hmac_sha256 c.sign_key now token
  ]

  -- The guard of the middleware.
  unfoldable pub may_pass : Request → ℤ → Bool
  may_pass r now =
      not c.gate_enabled
      || has_prefix r.path (codes "/auth/")
      || is_public_asset r.path
      || authed r now

  -- authMiddleware around the handler `next`
  unfoldable pub auth_middleware {ℓ} : {A : Type ℓ} → (Request → A) → (Reply → A) → Request → ℤ → A
  auth_middleware next reply r now =
      if may_pass r now
      then next r
      else if bytes_eq r.method method_get
          && contains (get r.header (codes "Accept")) (codes "text/html")
      then reply (redirect 303 (codes "/auth/login") none)
      else reply (status 401)
