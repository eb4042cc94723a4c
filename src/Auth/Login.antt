-- ===== src/Auth/Login.antt =====
-- proxy/auth.go: handleLogin and handleLogout. The readings of the clock in one request are arguments;
-- the pause of a second shows only in them. The text of the page is that of proxy/page.go.
pub mod Laws
pub mod Halves
pub mod Flight
use ssheasy.Base.{
  ℕ, ◌≤◌, ◌*◌, ◌/◌, ◌+◌, ◌^◌, Bool, true, false, List, [], ◌∷◌, Option, none, some, if◌then◌else◌,
}
use ssheasy.Base.Int.{ℤ, pos, negsuc, ◌+ℤ◌, ◌-ℤ◌}
use ssheasy.Base.Text.{Bytes, codes, bytes_eq, trim_space}
use ssheasy.Http.{Request, get, method_get, method_post}
use ssheasy.Auth.Lockout.{LoginTable, login_locked, record_login}
use ssheasy.Auth.ClientIp.{client_ip}
use ssheasy.Auth.Session.{unix, new_session}
use ssheasy.Auth.Totp.{verify_totp}
use ssheasy.Auth.Config.{AuthConfig}

-- What http.SetCookie sends; the name is always "session" and the path "/".
pub record Cookie : Type 0 where
  pub value : Bytes
  pub max_age : ℤ
  pub http_only : Bool
  pub secure : Bool
  pub same_site_lax : Bool

-- What the handlers of the gate write. `form status msg` is the login page with that message.
pub data Reply : Type 0 where
  form : ℕ → Bytes → Reply
  status : ℕ → Reply
  redirect : ℕ → Bytes → Option Cookie → Reply

-- The readings of time.Now in one login request, in the order in which the code makes them.
pub record Instants : Type 0 where
  pub checked : ℕ
  pub verified : ℕ
  pub recorded : ℕ
  pub locked : ℕ
  pub issued : ℕ

-- int(d.Seconds()), towards zero
abbrev whole_seconds : ℤ → ℤ
whole_seconds (pos n) = pos (n / 10 ^ 9)
whole_seconds (negsuc n) = pos 0 -ℤ pos ((n + 1) / 10 ^ 9)

abbrev pub too_many : Bytes
too_many = codes "Too many attempts. Try again later."

abbrev pub invalid_code : Bytes
invalid_code = codes "Invalid code, try again."

module _ (hmac_sha1 hmac_sha256 : Bytes → Bytes → Bytes) (c : AuthConfig) where
  -- The answer to a code that is right. The seconds of the lifetime are taken exactly; the source goes
  -- through a float64, which gives the same for lifetimes that are not of the order of centuries.
  unfoldable pub grant : Request → ℕ → Reply
  grant r now = redirect 303 (codes "/") (
      some (record {
        value = new_session hmac_sha256 c.sign_key (pos now +ℤ c.session_ttl);
        max_age = whole_seconds c.session_ttl;
        http_only = true;
        secure = bytes_eq (get r.header (codes "X-Forwarded-Proto")) (codes "https");
        same_site_lax = true;
      }))

  unfoldable pub code_ok : Request → Instants → Bool
  code_ok r t =
      verify_totp hmac_sha1 c.totp_seed (trim_space (r.form_value (codes "code"))) (pos t.verified)

  -- The POST branch, behind the lockout test.
  unfoldable pub verify_post : Request → Instants → LoginTable → Reply × LoginTable
  verify_post r t m =
      let ok = code_ok r t in
      (
        if ok then grant r t.issued else form 401 invalid_code,
        record_login (client_ip r) ok t.recorded t.locked m,
      )

  unfoldable pub handle_post : Request → Instants → LoginTable → Reply × LoginTable
  handle_post r t m =
      let (is_locked, swept) = login_locked (client_ip r) t.checked m in
      if is_locked then (form 429 too_many, swept) else verify_post r t swept

  -- handleLogin
  unfoldable pub handle_login : Request → Instants → LoginTable → Reply × LoginTable
  handle_login r t m =
      if bytes_eq r.method method_get
      then (form 200 [], m)
      else if bytes_eq r.method method_post
      then handle_post r t m
      else (status 405, m)

-- handleLogout
pub handle_logout : Reply
handle_logout = redirect 303 (codes "/auth/login") (
    some (record {
      value = [];
      max_age = negsuc 0;
      http_only = true;
      secure = false;
      same_site_lax = false;
    }))
