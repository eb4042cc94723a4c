-- ===== src/Service/Routes.antt =====
-- What the gate and the admin key stand in front of.
use ssheasy.Base.{
  true, false, ◌≡◌, ◌≢◌, refl, sym, subst, ◌⊎◌, inl, inr, Option, none, some, ◌&&◌, Bool-cases,
  arith,
}
use ssheasy.Base.Int.{ℤ}
use ssheasy.Base.Text.{Bytes, codes, bytes_eq, bytes_eq_iff, contains, has_prefix}
use ssheasy.Http.{Header, Request, get, method_get}
use ssheasy.Auth.Config.{AuthConfig}
use ssheasy.Auth.Login.{Reply}
use ssheasy.Auth.Gate.{auth_middleware, may_pass, is_public_asset}
use ssheasy.Auth.Gate.Laws.{HasSession, may_pass_iff}
use ssheasy.Traffic.{has_admin_key}
use ssheasy.Service.{
  Handler, websocket, mux_websocket, public_route, runs, replies, public_handler, AdminHandler,
  metrics, get_rate, set_rate, get_black_list, set_black_list, get_src_black_list,
  set_src_black_list, admin_route, unrouted, handles, guarded, routed, admin_handler,
}

-- The two handlers that relay connections.
abbrev pub IsRelay : Handler → Type 0
IsRelay h = (h ≡ websocket) ⊎ (h ≡ mux_websocket)

abbrev IsRelayPath : Bytes → Type 0
IsRelayPath path = (path ≡ codes "/p") ⊎ (path ≡ codes "/ws") ⊎ (path ≡ codes "/pm")

pub public_route-IsRelayPath : (path : Bytes) → IsRelay (public_route path) → IsRelayPath path
unfolding public_route
public_route-IsRelayPath path h = ground (
  arith,
  h,
  bytes_eq_iff path (codes "/p"),
  bytes_eq_iff path (codes "/ws"),
  bytes_eq_iff path (codes "/pm"),
)

pub guarded_path :
    (path : Bytes)
    → IsRelayPath path
    → (has_prefix path (codes "/auth/") ≡ false) × (is_public_asset path ≡ false)
unfolding has_prefix is_public_asset bytes_eq
guarded_path path (inl e) = rw (e) (refl, refl)
guarded_path path (inr (inl e)) = rw (e) (refl, refl)
guarded_path path (inr (inr e)) = rw (e) (refl, refl)

runs_injective : {g h : Handler} → runs g ≡ runs h → g ≡ h
runs_injective e = cc

replies-ne-runs : {x : Reply} {h : Handler} → replies x ≢ runs h
replies-ne-runs e = cc

module _ (hmac_sha256 : Bytes → Bytes → Bytes) (c : AuthConfig) where
  pub public_handler-passes :
      (r : Request) (now : ℤ) (h : Handler)
      → public_handler hmac_sha256 c r now ≡ runs h
      → (may_pass hmac_sha256 c r now ≡ true) × (public_route r.path ≡ h)
  unfolding public_handler auth_middleware
  public_handler-passes r now h e = elim (Bool-cases (may_pass hmac_sha256 c r now)) [
    | inl q ↦ (q, runs_injective (rw (q) at e))
    | inr q ↦
        elim (Bool-cases (
          bytes_eq r.method method_get
          && contains (get r.header (codes "Accept")) (codes "text/html"))) [
            | inl b ↦ absurd (replies-ne-runs (rw (q, b) at e))
            | inr b ↦ absurd (replies-ne-runs (rw (q, b) at e))
          ]
  ]

  -- With the gate up, a request is relayed, over a websocket of its own or over the shared one, only if
  -- it carries a live session of this server.
  pub public_handler-HasSession :
      (r : Request) (now : ℤ) (h : Handler)
      → c.gate_enabled ≡ true
      → public_handler hmac_sha256 c r now ≡ runs h
      → IsRelay h
      → HasSession hmac_sha256 c r now
  public_handler-HasSession r now h up e relay =
      let (passes, routed) = public_handler-passes r now h e in
      let place = public_route-IsRelayPath r.path (rw (routed) relay) in
      let (not_login, not_asset) = guarded_path r.path place in
      (may_pass_iff hmac_sha256 c r now up not_login not_asset).0 passes

unrouted-ne-handles : {h : AdminHandler} → unrouted ≢ handles h
unrouted-ne-handles e = cc

guarded-handles :
    (key : Bytes) (header : Header) (x h : AdminHandler)
    → guarded key header x ≡ handles h
    → (x ≡ h) × ((h ≡ metrics) ⊎ (has_admin_key key header ≡ true))
guarded-handles key header metrics h e = let same : metrics ≡ h = cc in (same, inl (sym same))
guarded-handles key header get_rate h e = ground arith
guarded-handles key header set_rate h e = ground arith
guarded-handles key header get_black_list h e = ground arith
guarded-handles key header set_black_list h e = ground arith
guarded-handles key header get_src_black_list h e = ground arith
guarded-handles key header set_src_black_list h e = ground arith

admin_route-some :
    (method path : Bytes) (x : AdminHandler)
    → admin_route method path ≡ some x
    → (x ≢ set_black_list) × (x ≢ set_src_black_list)
unfolding admin_route
admin_route-some method path x e = (ground arith, ground arith)

-- What may be said of a handler that runs.
abbrev pub IsGuarded : Bytes → Header → AdminHandler → Type 0
IsGuarded key header h =
    ((h ≡ metrics) ⊎ (has_admin_key key header ≡ true))
    × (h ≢ set_black_list)
    × (h ≢ set_src_black_list)

routed-IsGuarded :
    (key : Bytes) (header : Header) (method path : Bytes) (o : Option AdminHandler)
    (h : AdminHandler)
    → admin_route method path ≡ o
    → routed key header o ≡ handles h
    → IsGuarded key header h
routed-IsGuarded key header method path none h n e = absurd (unrouted-ne-handles e)
routed-IsGuarded key header method path (some x) h n e =
    let (same, guard) = guarded-handles key header x h e in
    let (not_set, not_src) = admin_route-some method path x n in
    (
      guard,
      subst (λ y. y ≢ set_black_list) same not_set,
      subst (λ y. y ≢ set_src_black_list) same not_src,
    )

-- The admin server runs a handler other than the metrics only for a request with the key, and no
-- request reaches setBlackList or setSrcBlackList.
pub admin_handler_guards :
    (key : Bytes) (r : Request) (h : AdminHandler)
    → admin_handler key r ≡ handles h
    → IsGuarded key r.header h
unfolding admin_handler
admin_handler_guards key r h e =
    routed-IsGuarded key r.header r.method r.path (admin_route r.method r.path) h refl e
