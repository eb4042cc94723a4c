-- ===== src/Access/Sources.antt =====
-- proxy/main.go: getIPAdress, with the black list of sources and the limiter of each source, and the
-- operator's handlers for the list in proxy/admin.go.
pub mod Laws
use ssheasy.Base.{
  ℕ, Bool, true, false, ◌||◌, List, [], ◌∷◌, ◌++◌, Option, none, some, if◌then◌else◌, map, reverse,
}
use ssheasy.Base.Int.{ℤ}
use ssheasy.Base.Text.{Bytes, codes, split, trim_space, has_prefix}
use ssheasy.Base.Maps.{Map, insert}
use ssheasy.Http.{Header, get}
use ssheasy.Access.Settings.{Limits}

-- rate.Limiter: NewLimiter, and Allow at an instant.
pub record Limiter {ℓ κ} (R : Type ℓ) (L : Type κ) : Type (ℓ ⊔ κ) where
  pub new_limiter : R → ℤ → L
  pub allow : ℕ → L → Bool × L

-- blacklistedSources and sourceRates.
pub record Sources {κ} (L : Type κ) : Type κ where
  pub blacklisted_sources : List Bytes
  pub source_rates : Map L

-- What a call of getIPAdress leaves.
pub record Verdict {κ} (L : Type κ) : Type κ where
  pub blocked : Bool
  pub ips : List Bytes
  pub sources : Sources L

-- The addresses of one header, from the last to the first.
abbrev pub forwarded : Bytes → List Bytes
forwarded value = map trim_space (reverse (split b',' value))

-- The list `ips`, from the two headers and the remote address.
unfoldable pub addresses : Header → Bytes → List Bytes
addresses h remote =
    forwarded (get h (codes "X-Forwarded-For"))
    ++ forwarded (get h (codes "X-Real-Ip"))
    ++ remote ∷ []

-- ips[0]
abbrev pub first_of : List Bytes → Bytes
first_of [] = []
first_of (ip ∷ ips) = ip

abbrev any_begins : Bytes → List Bytes → Bool
any_begins bi [] = false
any_begins bi (ip ∷ ips) = has_prefix ip bi || any_begins bi ips

-- The two nested loops over the black list and the addresses.
unfoldable pub is_listed : List Bytes → List Bytes → Bool
is_listed [] ips = false
is_listed (bi ∷ bs) ips = any_begins bi ips || is_listed bs ips

module _ {ℓ κ} {R : Type ℓ} {L : Type κ} (lib : Limiter R L) (limits : Limits R) where
  -- The entry of a source, made when it is missing.
  abbrev pub limiter_of : Bytes → Map L → L
  limiter_of key rates = elim (rates key) [
    | none ↦ lib.new_limiter limits.src_conn_rate limits.src_conn_burst
    | some l ↦ l
  ]

  -- getIPAdress at the instant `now`. A limiter is changed in place by Allow.
  unfoldable pub get_ip_adress : Header → Bytes → ℕ → Sources L → Verdict L
  get_ip_adress h remote now s =
      let ips = addresses h remote in
      let key = first_of ips in
      let l = limiter_of key s.source_rates in
      let here = record s { source_rates = insert key l s.source_rates } in
      let (ok, l') = lib.allow now l in
      let spent = record s { source_rates = insert key l' s.source_rates } in
      if is_listed s.blacklisted_sources ips
      then record { blocked = true; ips = ips; sources = here }
      else if limits.src_limit_enabled
      then record { blocked = if ok then false else true; ips = ips; sources = spent }
      else record { blocked = false; ips = ips; sources = here }

  -- setSrcBlackList, from the decoded body: the status that it answers and the state behind it.
  unfoldable pub set_src_black_list : Option (List Bytes) → Sources L → ℕ × Sources L
  set_src_black_list none s = (400, s)
  set_src_black_list (some hosts) s = (200, record s { blacklisted_sources = hosts })

  -- getSrcBlackList
  abbrev pub get_src_black_list : Sources L → List Bytes
  get_src_black_list s = s.blacklisted_sources
