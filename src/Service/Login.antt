-- ===== src/Service/Login.antt =====
-- From the login to the relay: handleLogin of proxy/auth.go, and the routes of proxy/main.go behind its
-- gate.
use ssheasy.Base.{ℕ, false≢true, true, false, ◌≡◌, ◌≢◌, refl, sym, ◌∙◌, some, arith}
use ssheasy.Base.Int.{ℤ, pos, ◌+ℤ◌, ltb_ℤ, IsInt64}
use ssheasy.Base.Text.{Bytes, codes}
use ssheasy.Http.{Request}
use ssheasy.Auth.Config.{AuthConfig}
use ssheasy.Auth.Lockout.{LoginTable}
use ssheasy.Auth.Session.{unix, new_session}
use ssheasy.Auth.Session.Laws.{valid_session-new_session}
use ssheasy.Auth.Login.{Cookie, redirect, Instants, handle_login}
use ssheasy.Auth.Login.Laws.{handle_login_grants}
use ssheasy.Auth.Gate.{auth_middleware, authed, may_pass}
use ssheasy.Service.{public_route, runs, Handler, public_handler}
use ssheasy.Service.Routes.{IsRelay, public_route-IsRelayPath, guarded_path, public_handler-passes}

module _ (hmac_sha1 hmac_sha256 : Bytes → Bytes → Bytes) (c : AuthConfig) where
  -- The end of a session that is issued at this instant.
  abbrev pub expiry : Instants → ℤ
  expiry t = pos t.issued +ℤ c.session_ttl

  granted-alive :
      (r : Request) (t : Instants) (m : LoginTable) (q : Request) (now : ℤ) (k : Bytes)
      → k ≡ new_session hmac_sha256 c.sign_key (expiry t)
      → IsInt64 (unix (expiry t))
      → q.cookie (codes "session") ≡ some k
      → authed hmac_sha256 c q now ≡ ltb_ℤ (unix now) (unix (expiry t))
  unfolding authed
  granted-alive r t m q now k issued fits carried =
      rw (carried, authed, issued)
        (valid_session-new_session hmac_sha256 c.sign_key now (expiry t) fits)

  may_pass-relay :
      (q : Request) (now : ℤ)
      → c.gate_enabled ≡ true
      → IsRelay (public_route q.path)
      → may_pass hmac_sha256 c q now ≡ authed hmac_sha256 c q now
  unfolding may_pass
  may_pass-relay q now up relay =
      let (not_login, not_asset) = guarded_path q.path (public_route-IsRelayPath q.path relay) in
      ground arith

  public_handler-runs :
      (q : Request) (now : ℤ)
      → may_pass hmac_sha256 c q now ≡ true
      → public_handler hmac_sha256 c q now ≡ runs (public_route q.path)
  unfolding public_handler auth_middleware
  public_handler-runs q now p = rw (p) refl

  -- The cookie that handleLogin sets opens the relays, /p, /ws and /pm, of a server with the gate up
  -- until the second in which it expires, and from then on it opens none: a request that carries it is
  -- handed to the handler of its path before that second, and to no handler behind it. The expiry has to
  -- fit into an int64.
  pub handle_login-public_handler :
      (r : Request) (t : Instants) (m : LoginTable) (s : ℕ) (l : Bytes) (k : Cookie)
      → (handle_login hmac_sha1 hmac_sha256 c r t m).0 ≡ redirect s l (some k)
      → IsInt64 (unix (expiry t))
      → c.gate_enabled ≡ true
      → (q : Request) (now : ℤ) → q.cookie (codes "session") ≡ some k.value
      → IsRelay (public_route q.path)
      → (ltb_ℤ (unix now) (unix (expiry t)) ≡ true
          → public_handler hmac_sha256 c q now ≡ runs (public_route q.path))
        × (ltb_ℤ (unix now) (unix (expiry t)) ≡ false
            → (h : Handler) → public_handler hmac_sha256 c q now ≢ runs h)
  handle_login-public_handler r t m s l k set fits up q now carried relay =
      let (_, issued) = handle_login_grants hmac_sha1 hmac_sha256 c r t m s l k set in
      let passes =
        may_pass-relay q now up relay ∙ granted-alive r t m q now k.value issued fits carried in
      (
        λ alive. public_handler-runs q now (passes ∙ alive),
        λ over h e.
            false≢true (sym (passes ∙ over) ∙ (public_handler-passes hmac_sha256 c q now h e).0),
      )
