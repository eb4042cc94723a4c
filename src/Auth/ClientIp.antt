-- ===== src/Auth/ClientIp.antt =====
-- proxy/auth.go: clientIP, the address that the lockout counts by, with net.SplitHostPort.
use ssheasy.Base.{
  ℕ, ◌+◌, ◌-◌, Bool, false, ◌||◌, List, [], ◌∷◌, Option, none, some, if◌then◌else◌, ◌==◌, ◌≡◌, refl,
  take, drop,
}
use ssheasy.Base.Text.{Bytes, codes, bytes_eq, split, trim_space}
use ssheasy.Http.{Request, get}

-- The position of the first, and of the last, such byte.
index_of : ℕ → Bytes → Option ℕ
index_of b [] = none
index_of b (c ∷ s) =
    if c == b then some 0 else elim (index_of b s) [ none ↦ none | some i ↦ some (i + 1) ]

last_index_of : ℕ → Bytes → Option ℕ
last_index_of b [] = none
last_index_of b (c ∷ s) = elim (last_index_of b s) [
  | some i ↦ some (i + 1)
  | none ↦ if c == b then some 0 else none
]

abbrev has : ℕ → Bytes → Bool
has b [] = false
has b (c ∷ s) = c == b || has b s

-- The host, with the checks for stray brackets in what stands behind `j` and behind `k`.
checked_host : Bytes → Bytes → Bytes → Option Bytes
checked_host host from_j from_k =
    if has b'[' from_j then none else if has b']' from_k then none else some host

bracketed : Bytes → ℕ → Option Bytes
unfolding index_of checked_host
bracketed s i = elim (index_of b']' s) [
  | none ↦ none
  | some e ↦
      if e + 1 == i
      then checked_host (take (e - 1) (drop 1 s)) (drop 1 s) (drop (e + 1) s)
      else none
]

unbracketed : Bytes → ℕ → Option Bytes
unfolding checked_host
unbracketed s i = let host = take i s in if has b':' host then none else checked_host host s s

-- The host that net.SplitHostPort returns; `none` is any error.
unfoldable pub split_host : Bytes → Option Bytes
unfolding last_index_of bracketed unbracketed
split_host s = elim (last_index_of b':' s) [
  | none ↦ none
  | some i ↦ elim s [
    | [] ↦ none
    | c ∷ r ↦ if c == b'[' then bracketed (c ∷ r) i else unbracketed (c ∷ r) i
  ]
]

abbrev first_part : List Bytes → Bytes
first_part [] = []
first_part (p ∷ ps) = p

-- clientIP
unfoldable pub client_ip : Request → Bytes
unfolding split_host
client_ip r =
    let xff = get r.header (codes "X-Forwarded-For") in
    let xr = get r.header (codes "X-Real-Ip") in
    if bytes_eq xff []
    then (if bytes_eq xr []
        then elim (split_host r.remote_addr) [ some host ↦ host | none ↦ r.remote_addr ]
        else trim_space xr)
    else trim_space (first_part (split b',' xff))

split_host_v4 : split_host (codes "10.0.0.7:52100") ≡ some (codes "10.0.0.7")
unfolding split_host
split_host_v4 = refl

split_host_v6 : split_host (codes "[::1]:80") ≡ some (codes "::1")
unfolding split_host
split_host_v6 = refl

split_host_bare : split_host (codes "::1") ≡ none
unfolding split_host
split_host_bare = refl
