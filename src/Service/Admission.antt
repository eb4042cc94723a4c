-- ===== src/Service/Admission.antt =====
-- From the operator's black list of sources to the two websockets: setSrcBlackList of proxy/admin.go,
-- getIPAdress and handleWss of proxy/main.go, and handleMuxWss of proxy/mux.go.
use ssheasy.Base.{ℕ, true, false, ◌≡◌, refl, ◌⊎◌, List, [], ◌∷◌, some}
use ssheasy.Base.Text.{Bytes}
use ssheasy.Http.{Header}
use ssheasy.Access.Settings.{Limits}
use ssheasy.Access.Sources.{
  Limiter, Sources, Verdict, addresses, first_of, limiter_of, get_ip_adress, set_src_black_list,
}
use ssheasy.Access.Sources.Laws.{IsBanned, get_ip_adress_iff}
use ssheasy.Access.Targets.{Targets}
use ssheasy.Mux.Header.{Json}
use ssheasy.Mux.Server.{Network, handle_mux_wss}
use ssheasy.Relay.{websocket_up, websocket_down, close_websocket, World, serve, handle_wss}

-- A websocket whose source is turned away: it is counted and closed, and nothing else happens.
abbrev pub IsTurnedAway {κ} : {L : Type κ} → Verdict L → Type 0
IsTurnedAway v =
    ((w : World) (t : Targets)
      → handle_wss w v t ≡ (websocket_up ∷ websocket_down ∷ close_websocket ∷ [], t))
    × ((json : Json) (net : Network) (inps : List Bytes) (t : Targets)
        → handle_mux_wss json net v inps t ≡ ([], t))

blocked-IsTurnedAway {κ} : {L : Type κ} (v : Verdict L) → v.blocked ≡ true → IsTurnedAway v
unfolding handle_wss serve handle_mux_wss
blocked-IsTurnedAway v b = (λ w t. rw (b) refl, λ json net inps t. rw (b) refl)

module _ {ℓ κ} {R : Type ℓ} {L : Type κ} (lib : Limiter R L) (limits : Limits R) where
  -- Once the operator has set the black list of sources, a websocket of either kind is used for nothing,
  -- whatever the client sends on it, if one of the client's addresses begins with an entry of the list,
  -- or if the limits are on and the limiter of its first address refuses; and in no other case is it
  -- blocked.
  pub set_src_black_list-get_ip_adress :
      (hosts : List Bytes) (s : Sources L) (h : Header) (remote : Bytes) (now : ℕ)
      → let after = (set_src_black_list lib limits (some hosts) s).1 in
        let ips = addresses h remote in
        let v = get_ip_adress lib limits h remote now after in
        let refused =
          IsBanned hosts ips
          ⊎ ((limits.src_limit_enabled ≡ true)
              × ((lib.allow now (limiter_of lib limits (first_of ips) s.source_rates)).0
                  ≡ false)) in
        (refused → IsTurnedAway v) × (v.blocked ≡ true → refused)
  unfolding set_src_black_list
  set_src_black_list-get_ip_adress hosts s h remote now =
      let after = record s { blacklisted_sources = hosts } in
      let v = get_ip_adress lib limits h remote now after in
      let decides = get_ip_adress_iff lib limits h remote now after in
      (λ r. blocked-IsTurnedAway v (decides.1 r), decides.0)
