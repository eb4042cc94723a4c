-- ===== src/FileServer/Conditions/NoneMatch.antt =====
-- checkIfNoneMatch on a list of entity tags, and on a lone comma.
use ssheasy.Base.{
  ℕ, zero, suc, ◌<◌, Bool, true, false, ◌||◌, ◌≡◌, refl, ◌∙◌, List, [], ◌∷◌, ◌++◌, arith,
  if◌then◌else◌, length, All, Bool-cases, inl, inr,
}
use ssheasy.Base.Text.{Bytes, codes, bytes_eq, bytes_eq_iff, trim_string}
use ssheasy.FileServer.Etag.Laws.{
  EntityTag, IsEntityTag, print, same_weak, trim_string-print, trim_string-comma, trim_string-nil,
}
use ssheasy.FileServer.Conditions.{
  CondResult, cond_true, cond_false, result, panics, none_match_loop, check_if_none_match,
}
use ssheasy.FileServer.Conditions.Lists.{
  more_tags, any, list-quoted, none_match_turn-print, none_match_at-print, length-list, list-ne-nil,
}

-- The check is passed if no tag matches.
abbrev pub passed : Bool → CondResult
passed true = cond_false
passed false = cond_true

passed-or :
    (b c : Bool) → (if b then result cond_false else result (passed c)) ≡ result (passed (b || c))
passed-or true c = refl
passed-or false c = refl

-- What the loop reads behind a tag: one round for each tag that follows.
none_match_loop-more :
    (n : ℕ) (r : EntityTag) (ts : List EntityTag)
    → All IsEntityTag ts
    → length ts < n
    → none_match_loop n (print r) (more_tags ts) ≡ result (passed (any (λ u. same_weak u r) ts))
unfolding none_match_loop
none_match_loop-more zero r ts h l = absurd (omega arith)
none_match_loop-more (suc n) r [] h l = rw (trim_string-nil) refl
none_match_loop-more (suc n) r (u ∷ us) (hu, hs) l =
    rw (trim_string-comma u (more_tags us) (list-quoted u us)) (
      none_match_at-print (none_match_loop n (print r)) u r (more_tags us) hu (list-quoted u us)
      ∙ rw (none_match_loop-more n r us hs (omega arith))
          (passed-or (same_weak u r) (any (λ v. same_weak v r) us)))

-- On a list of one or more entity tags that is written with a comma and one blank between them,
-- checkIfNoneMatch compares as RFC 7232 asks for: it fails exactly if one of the tags is the response's,
-- weak or strong.
pub check_if_none_match-list :
    (t r : EntityTag) (ts : List EntityTag)
    → All IsEntityTag (t ∷ ts)
    → check_if_none_match (print t ++ more_tags ts) (print r)
      ≡ result (passed (any (λ u. same_weak u r) (t ∷ ts)))
unfolding check_if_none_match none_match_loop
check_if_none_match-list t r ts (ht, hs) =
    let list = print t ++ more_tags ts in
    let turn =
      none_match_turn-print (none_match_loop (length list) (print r)) t r (more_tags ts) ht
        (list-quoted t ts) in
    let rest = none_match_loop-more (length list) r ts hs (omega (arith, length-list t ts)) in
    let trimmed = trim_string-print t (more_tags ts) (list-quoted t ts) in
    let some_text : bytes_eq list [] ≡ false =
      ground (arith, bytes_eq_iff list [], list-ne-nil t ts) in
    rw (some_text, trimmed, turn, rest) (passed-or (same_weak t r) (any (λ v. same_weak v r) ts))

-- A header that is a comma between blanks makes checkIfNoneMatch index an empty text, whatever the
-- response's tag is.
check_if_none_match-comma :
    (inm etag : Bytes) → trim_string inm ≡ codes "," → check_if_none_match inm etag ≡ panics
unfolding check_if_none_match none_match_loop
check_if_none_match-comma inm etag e = elim (Bool-cases (bytes_eq inm [])) [
  | inl n ↦
      let same : inm ≡ [] = (bytes_eq_iff inm []).0 n in
      let nothing : trim_string inm ≡ [] = rw (same) (trim_string-nil) in ground (arith, e, nothing)
  | inr n ↦ rw (n, e) refl
]
