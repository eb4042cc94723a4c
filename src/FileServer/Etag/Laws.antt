-- ===== src/FileServer/Etag/Laws.antt =====
-- Entity tags as RFC 7232 has them: what scanETag finds, and what it leaves.
use mathlib.Core.List.{reverse-reverse, reverse-append, reverse-cons}
use ssheasy.Base.{
  ℕ, ◌≤◌, ◌<◌, Bool, true, false, ◌≡◌, refl, sym, ap, ◌∙◌, [], ◌∷◌, ◌++◌, reverse, some, arith,
  ◌==◌, length, drop, All, length-append, append_assoc, Bool-cases, Option-cases, inl, inr,
  length-drop, ◌||◌, ◌&&◌, not,
}
use ssheasy.Base.Text.{
  Bytes, codes, bytes_eq, has_prefix, trim_prefix, trim_string, drop_ascii_space,
}
use ssheasy.FileServer.Etag.{
  is_etag_byte, quote, closing, quoted, scan_trimmed, scan_etag, etag_strong_match, etag_weak_match,
}

-- entity-tag = [ weak ] opaque-tag
pub record EntityTag : Type 0 where
  pub weak : Bool
  pub opaque : Bytes

abbrev pub IsEtagByte : ℕ → Type 0
IsEtagByte c = is_etag_byte c ≡ true

abbrev pub IsEntityTag : EntityTag → Type 0
IsEntityTag t = All IsEtagByte t.opaque

abbrev pub mark : Bool → Bytes
mark true = codes "W/"
mark false = []

-- The text of a tag.
abbrev pub print : EntityTag → Bytes
print t = mark t.weak ++ quote ∷ (t.opaque ++ quote ∷ [])

-- Texts that end with a quote, which no trimming shortens from behind.
abbrev pub EndsQuoted : Bytes → Type 0
EndsQuoted s = (t : Bytes) × (s ≡ t ++ quote ∷ [])

drop_ascii_space-quoted : (s : Bytes) → EndsQuoted (drop_ascii_space (s ++ quote ∷ []))
unfolding drop_ascii_space
drop_ascii_space-quoted [] = ([], refl)
drop_ascii_space-quoted (c ∷ s) = elim (Bool-cases (c == 32 || c == 9 || c == 10 || c == 13)) [
  | inl e ↦ rw (e) (drop_ascii_space-quoted s)
  | inr e ↦ rw (e) (c ∷ s, refl)
]

trim_string-quoted : (s : Bytes) → EndsQuoted s → trim_string s ≡ drop_ascii_space s
unfolding trim_string drop_ascii_space
trim_string-quoted s (x, ends) =
    let (t, e) = drop_ascii_space-quoted x in
    let back : reverse (quote ∷ reverse t) ≡ t ++ quote ∷ [] =
      reverse-cons quote (reverse t) ∙ ap (λ u. u ++ quote ∷ []) (reverse-reverse t) in
    rw (ends, e, reverse-append t (quote ∷ [])) back

closing-print :
    (s rest : Bytes) → All IsEtagByte s → closing (s ++ quote ∷ rest) ≡ some (s ++ quote ∷ [], rest)
unfolding closing
closing-print [] rest h = refl
closing-print (c ∷ s) rest (hc, hs) = ground (arith, closing-print s rest hs)

quoted-print :
    (m s rest : Bytes)
    → All IsEtagByte s
    → quoted m (quote ∷ (s ++ quote ∷ rest)) ≡ some (m ++ quote ∷ (s ++ quote ∷ []), rest)
unfolding quoted
quoted-print m [] rest h = rw (closing-print [] rest h) refl
quoted-print m (c ∷ s) rest h = rw (closing-print (c ∷ s) rest h) refl

scan_trimmed-print :
    (t : EntityTag) (rest : Bytes)
    → IsEntityTag t
    → scan_trimmed (print t ++ rest) ≡ some (print t, rest)
unfolding scan_trimmed has_prefix
scan_trimmed-print t rest h = by_mark t.weak
  where
    by_mark :
        (w : Bool)
        → scan_trimmed ((mark w ++ quote ∷ (t.opaque ++ quote ∷ [])) ++ rest)
          ≡ some (mark w ++ quote ∷ (t.opaque ++ quote ∷ []), rest)
    by_mark true =
        rw (append_assoc t.opaque (quote ∷ []) rest) (quoted-print (codes "W/") t.opaque rest h)
    by_mark false = rw (append_assoc t.opaque (quote ∷ []) rest) (quoted-print [] t.opaque rest h)

drop_ascii_space-print :
    (t : EntityTag) (rest : Bytes) → drop_ascii_space (print t ++ rest) ≡ print t ++ rest
unfolding drop_ascii_space
drop_ascii_space-print t rest = by_mark t.weak
  where
    by_mark :
        (w : Bool)
        → drop_ascii_space ((mark w ++ quote ∷ (t.opaque ++ quote ∷ [])) ++ rest)
          ≡ (mark w ++ quote ∷ (t.opaque ++ quote ∷ [])) ++ rest
    by_mark true = refl
    by_mark false = refl

-- scanETag finds the tag that stands in front, and leaves what follows it.
pub scan_etag-print :
    (t : EntityTag) (rest : Bytes)
    → IsEntityTag t
    → EndsQuoted (print t ++ rest)
    → scan_etag (print t ++ rest) ≡ some (print t, rest)
unfolding scan_etag
scan_etag-print t rest h q =
    rw (trim_string-quoted (print t ++ rest) q, drop_ascii_space-print t rest)
      (scan_trimmed-print t rest h)

-- A scan that succeeds shortens the text.
closing-shorter : (s u v : Bytes) → closing s ≡ some (u, v) → length v < length s
unfolding closing
closing-shorter [] u v e = cc
closing-shorter (c ∷ s) u v e = elim (Option-cases (closing s)) [
  | inl n ↦ ground arith
  | inr ((u', v'), n) ↦ ground (arith, closing-shorter s u' v' n)
]

quoted-shorter : (m s u v : Bytes) → quoted m s ≡ some (u, v) → length v < length s
unfolding quoted
quoted-shorter m [] u v e = cc
quoted-shorter m (q ∷ []) u v e = cc
quoted-shorter m (q ∷ c ∷ s) u v e = elim (Option-cases (closing (c ∷ s))) [
  | inl n ↦ ground arith
  | inr ((u', v'), n) ↦ ground (arith, closing-shorter (c ∷ s) u' v' n)
]

drop_ascii_space-le : (s : Bytes) → length (drop_ascii_space s) ≤ length s
unfolding drop_ascii_space
drop_ascii_space-le [] = omega arith
drop_ascii_space-le (c ∷ s) = ground (arith, drop_ascii_space-le s)

length-reverse : (s : Bytes) → length (reverse s) ≡ length s
length-reverse [] = refl
length-reverse (c ∷ s) =
    rw (reverse-cons c s) (omega (arith, length-append (reverse s) (c ∷ []), length-reverse s))

pub trim_string-le : (s : Bytes) → length (trim_string s) ≤ length s
unfolding trim_string
trim_string-le s =
    let front = drop_ascii_space s in
    let back = drop_ascii_space (reverse front) in
    omega (
      arith,
      length-reverse back,
      drop_ascii_space-le (reverse front),
      length-reverse front,
      drop_ascii_space-le s,
    )

pub scan_etag-shorter : (s u v : Bytes) → scan_etag s ≡ some (u, v) → length v < length s
unfolding scan_etag scan_trimmed
scan_etag-shorter s u v e = elim (Bool-cases (has_prefix (trim_string s) (codes "W/"))) [
  | inl p ↦ omega (
    arith,
    quoted-shorter (codes "W/") (drop 2 (trim_string s)) u v (rw p at e),
    length-drop 2 (trim_string s),
    trim_string-le s,
  )
  | inr p ↦ omega (arith, quoted-shorter [] (trim_string s) u v (rw p at e), trim_string-le s)
]

-- The comparisons of RFC 7232, section 2.3.2.
abbrev pub same_strong : EntityTag → EntityTag → Bool
same_strong t r = not t.weak && not r.weak && bytes_eq t.opaque r.opaque

abbrev pub same_weak : EntityTag → EntityTag → Bool
same_weak t r = bytes_eq t.opaque r.opaque

bytes_eq-quoted : (x y : Bytes) → bytes_eq (x ++ quote ∷ []) (y ++ quote ∷ []) ≡ bytes_eq x y
unfolding bytes_eq
bytes_eq-quoted [] [] = refl
bytes_eq-quoted [] (d ∷ []) = ground arith
bytes_eq-quoted [] (d ∷ e ∷ y) = ground arith
bytes_eq-quoted (c ∷ []) [] = ground arith
bytes_eq-quoted (c ∷ e ∷ x) [] = ground arith
bytes_eq-quoted (c ∷ x) (d ∷ y) = ap (λ b. (c == d) && b) (bytes_eq-quoted x y)

pub etag_strong_match-print :
    (t r : EntityTag) → etag_strong_match (print t) (print r) ≡ same_strong t r
unfolding etag_strong_match bytes_eq
etag_strong_match-print t r = by_marks t.weak r.weak
  where
    by_marks :
        (v w : Bool)
        → etag_strong_match
            (mark v ++ quote ∷ (t.opaque ++ quote ∷ []))
            (mark w ++ quote ∷ (r.opaque ++ quote ∷ []))
          ≡ (not v && not w && bytes_eq t.opaque r.opaque)
    by_marks true w = ground arith
    by_marks false true = refl
    by_marks false false = ground (arith, bytes_eq-quoted t.opaque r.opaque)

trim_prefix-print :
    (t : EntityTag) → trim_prefix (print t) (codes "W/") ≡ quote ∷ (t.opaque ++ quote ∷ [])
unfolding trim_prefix has_prefix
trim_prefix-print t = by_mark t.weak
  where
    by_mark :
        (w : Bool)
        → trim_prefix (mark w ++ quote ∷ (t.opaque ++ quote ∷ [])) (codes "W/")
          ≡ quote ∷ (t.opaque ++ quote ∷ [])
    by_mark true = refl
    by_mark false = refl

pub etag_weak_match-print : (t r : EntityTag) → etag_weak_match (print t) (print r) ≡ same_weak t r
unfolding etag_weak_match bytes_eq
etag_weak_match-print t r =
    rw (trim_prefix-print t, trim_prefix-print r) (bytes_eq-quoted t.opaque r.opaque)

-- The text of a tag starts with no white space, and ends with a quote.
pub trim_string-print :
    (t : EntityTag) (rest : Bytes)
    → EndsQuoted (print t ++ rest)
    → trim_string (print t ++ rest) ≡ print t ++ rest
trim_string-print t rest q = trim_string-quoted (print t ++ rest) q ∙ drop_ascii_space-print t rest

pub trim_string-space :
    (t : EntityTag) (rest : Bytes)
    → EndsQuoted (print t ++ rest)
    → trim_string (32 ∷ (print t ++ rest)) ≡ print t ++ rest
unfolding drop_ascii_space
trim_string-space t rest (x, e) =
    trim_string-quoted (32 ∷ (print t ++ rest)) (32 ∷ x, ap (λ u. 32 ∷ u) e)
    ∙ drop_ascii_space-print t rest

pub scan_etag-space :
    (t : EntityTag) (rest : Bytes)
    → IsEntityTag t
    → EndsQuoted (print t ++ rest)
    → scan_etag (32 ∷ (print t ++ rest)) ≡ some (print t, rest)
unfolding scan_etag
scan_etag-space t rest h q = rw (trim_string-space t rest q) (scan_trimmed-print t rest h)

pub print-quoted : (t : EntityTag) → EndsQuoted (print t)
print-quoted t = (
  mark t.weak ++ quote ∷ t.opaque,
  sym (append_assoc (mark t.weak) (quote ∷ t.opaque) (quote ∷ [])),
)

pub trim_string-comma :
    (t : EntityTag) (rest : Bytes)
    → EndsQuoted (print t ++ rest)
    → trim_string (b',' ∷ 32 ∷ (print t ++ rest)) ≡ b',' ∷ 32 ∷ (print t ++ rest)
unfolding drop_ascii_space
trim_string-comma t rest (x, e) =
    trim_string-quoted (b',' ∷ 32 ∷ (print t ++ rest)) (b',' ∷ 32 ∷ x, ap (λ u. b',' ∷ 32 ∷ u) e)

pub trim_string-nil : trim_string [] ≡ []
unfolding trim_string drop_ascii_space
trim_string-nil = refl

pub trim_string-one_comma : trim_string (b',' ∷ []) ≡ b',' ∷ []
unfolding trim_string drop_ascii_space
trim_string-one_comma = refl
