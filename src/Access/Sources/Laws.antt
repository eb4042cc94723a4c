-- ===== src/Access/Sources/Laws.antt =====
-- What getIPAdress decides, and which limiter it charges.
use ssheasy.Base.{ℕ, true, false, ◌≡◌, refl, ◌↔◌, ◌⊎◌, ◌≢◌, List, [], ◌∷◌, some, arith}
use ssheasy.Base.Text.{Bytes, codes, has_prefix, bytes_eq_iff, split, trim_space}
use ssheasy.Http.{Header, get}
use ssheasy.Access.Settings.{Limits}
use ssheasy.Access.Sources.{
  Limiter, Sources, addresses, first_of, is_listed, any_begins, limiter_of, get_ip_adress,
}

-- Some entry of the list satisfies the predicate.
abbrev pub Some : (Bytes → Type 0) → List Bytes → Type 0
Some P [] = ⊥
Some P (x ∷ xs) = P x ⊎ Some P xs

-- One of the addresses begins with one of the listed texts.
abbrev pub IsBanned : List Bytes → List Bytes → Type 0
IsBanned banned ips = Some (λ bi. Some (λ ip. has_prefix ip bi ≡ true) ips) banned

any_begins_iff :
    (bi : Bytes) (ips : List Bytes)
    → (any_begins bi ips ≡ true) ↔ Some (λ ip. has_prefix ip bi ≡ true) ips
any_begins_iff bi [] = ground arith
any_begins_iff bi (ip ∷ ips) = ground (arith, any_begins_iff bi ips)

is_listed_iff : (banned ips : List Bytes) → (is_listed banned ips ≡ true) ↔ IsBanned banned ips
unfolding is_listed
is_listed_iff [] ips = ground arith
is_listed_iff (bi ∷ bs) ips = ground (arith, is_listed_iff bs ips, any_begins_iff bi ips)

module _ {ℓ κ} {R : Type ℓ} {L : Type κ} (lib : Limiter R L) (limits : Limits R) where
  -- A connection is blocked exactly when one of its addresses is banned, or the limits are on and the
  -- limiter of its first address refuses.
  pub get_ip_adress_iff :
      (h : Header) (remote : Bytes) (now : ℕ) (s : Sources L)
      → let ips = addresses h remote in
        ((get_ip_adress lib limits h remote now s).blocked ≡ true) ↔ (
          IsBanned s.blacklisted_sources ips
          ⊎ ((limits.src_limit_enabled ≡ true)
              × ((lib.allow now (limiter_of lib limits (first_of ips) s.source_rates)).0 ≡ false)))
  unfolding get_ip_adress
  get_ip_adress_iff h remote now s =
      ground (arith, is_listed_iff s.blacklisted_sources (addresses h remote))

  -- A token is taken only from a connection that is let past the black list, and only in the bucket of
  -- its first address: a banned connection spends none, and other buckets stay.
  get_ip_adress-charges :
      (h : Header) (remote : Bytes) (now : ℕ) (s : Sources L) (other : Bytes)
      → let ips = addresses h remote in
        let key = first_of ips in
        let after = (get_ip_adress lib limits h remote now s).sources in
        let l = limiter_of lib limits key s.source_rates in
        (IsBanned s.blacklisted_sources ips → after.source_rates key ≡ some l)
        × (¬ IsBanned s.blacklisted_sources ips
            → limits.src_limit_enabled ≡ true
            → after.source_rates key ≡ some (lib.allow now l).1)
        × (key ≢ other → after.source_rates other ≡ s.source_rates other)
        × (after.blacklisted_sources ≡ s.blacklisted_sources)
  unfolding get_ip_adress
  get_ip_adress-charges h remote now s other = ground (
    arith,
    is_listed_iff s.blacklisted_sources (addresses h remote),
    bytes_eq_iff (first_of (addresses h remote)) other,
    bytes_eq_iff (first_of (addresses h remote)) (first_of (addresses h remote)),
  )

  -- The header as the limiter sees it.
  abbrev pub IsDirect : Header → Type 0
  IsDirect h = get h (codes "X-Forwarded-For") ≡ []

  direct_first : (h : Header) (remote : Bytes) → IsDirect h → first_of (addresses h remote) ≡ []
  unfolding addresses split trim_space
  direct_first h remote d = rw (d) refl

  -- Without X-Forwarded-For and with nobody banned, two connections from any two remote addresses
  -- are one source: they get the same verdict and charge the same bucket.
  get_ip_adress_shared :
      (h h' : Header) (remote remote' : Bytes) (now : ℕ) (s : Sources L)
      → IsDirect h
      → IsDirect h'
      → s.blacklisted_sources ≡ []
      → let v = get_ip_adress lib limits h remote now s in
        let v' = get_ip_adress lib limits h' remote' now s in
        (v.blocked ≡ v'.blocked) × (v.sources ≡ v'.sources)
  unfolding get_ip_adress is_listed
  get_ip_adress_shared h h' remote remote' now s d d' e =
      rw (direct_first h remote d, direct_first h' remote' d', e, get_ip_adress) (ground arith)
