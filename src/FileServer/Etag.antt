-- ===== src/FileServer/Etag.antt =====
-- proxy/fileserver.go: entity tags, scanETag and the two comparisons.
pub mod Laws
use ssheasy.Base.{
  ℕ, Bool, ◌&&◌, ◌||◌, not, List, [], ◌∷◌, ◌++◌, Option, none, some, if◌then◌else◌, ◌==◌, leb, drop,
}
use ssheasy.Base.Text.{Bytes, codes, bytes_eq, has_prefix, trim_prefix, trim_string}

-- The bytes that may stand between the quotes.
abbrev pub is_etag_byte : ℕ → Bool
is_etag_byte c = c == 0x21 || leb 0x23 c && leb c 0x7e || leb 0x80 c

abbrev pub quote : ℕ
quote = 0x22

abbrev cons_found : ℕ → Option (Bytes × Bytes) → Option (Bytes × Bytes)
cons_found c none = none
cons_found c (some (u, v)) = some (c ∷ u, v)

-- The loop of scanETag behind the opening quote: the text up to and with the closing one, and the rest.
unfoldable pub closing : Bytes → Option (Bytes × Bytes)
closing [] = none
closing (c ∷ s) =
    let rest = closing s in
    if is_etag_byte c then cons_found c rest else if c == quote then some (c ∷ [], s) else none

abbrev with_mark : Bytes → ℕ → Option (Bytes × Bytes) → Option (Bytes × Bytes)
with_mark mark q none = none
with_mark mark q (some (u, v)) = some (mark ++ q ∷ u, v)

-- Behind the mark "W/", if there is one.
unfoldable pub quoted : Bytes → Bytes → Option (Bytes × Bytes)
quoted mark [] = none
quoted mark (q ∷ []) = none
quoted mark (q ∷ c ∷ s) = if q == quote then with_mark mark q (closing (c ∷ s)) else none

unfoldable pub scan_trimmed : Bytes → Option (Bytes × Bytes)
scan_trimmed s = if has_prefix s (codes "W/") then quoted (codes "W/") (drop 2 s) else quoted [] s

-- scanETag; `none` is the pair of empty strings, which no tag is.
unfoldable pub scan_etag : Bytes → Option (Bytes × Bytes)
scan_etag s = scan_trimmed (trim_string s)

abbrev begins_quoted : Bytes → Bool
begins_quoted [] = ssheasy.Base.false
begins_quoted (c ∷ s) = c == quote

-- etagStrongMatch
unfoldable pub etag_strong_match : Bytes → Bytes → Bool
etag_strong_match a b = bytes_eq a b && begins_quoted a

-- etagWeakMatch
unfoldable pub etag_weak_match : Bytes → Bytes → Bool
etag_weak_match a b = bytes_eq (trim_prefix a (codes "W/")) (trim_prefix b (codes "W/"))
