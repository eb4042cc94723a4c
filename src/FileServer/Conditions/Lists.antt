-- ===== src/FileServer/Conditions/Lists.antt =====
-- The lists of entity tags of If-Match and If-None-Match, and the end of the loops that read them.
use ssheasy.Base.{
  ℕ, ◌+◌, ◌*◌, ◌≤◌, Bool, true, false, ◌||◌, ◌≡◌, ◌≢◌, refl, sym, ap, ◌∙◌, List, [], ◌∷◌, ◌++◌,
  some, arith, if◌then◌else◌, length, length-append, append_assoc, append-nil, subst,
}
use ssheasy.Base.Text.{Bytes, codes}
use ssheasy.FileServer.Etag.{quote, scan_etag, etag_weak_match}
use ssheasy.FileServer.Etag.Laws.{
  EntityTag, IsEntityTag, EndsQuoted, mark, print, print-quoted, same_weak, scan_etag-print,
  scan_etag-space, etag_weak_match-print,
}
use ssheasy.FileServer.Conditions.{
  CondResult, cond_true, cond_false, Checked, result, none_match_at, none_match_turn,
}

-- 1#entity-tag, with a comma and a blank between the tags.
abbrev pub more_tags : List EntityTag → Bytes
more_tags [] = []
more_tags (t ∷ ts) = codes ", " ++ (print t ++ more_tags ts)

abbrev pub any : (EntityTag → Bool) → List EntityTag → Bool
any p [] = false
any p (t ∷ ts) = p t || any p ts

-- A check that found a match, or none.
abbrev pub found : Bool → CondResult
found true = cond_true
found false = cond_false

append-quoted : (s t : Bytes) → EndsQuoted t → EndsQuoted (s ++ t)
append-quoted s t (x, e) = (s ++ x, ap (λ u. s ++ u) e ∙ sym (append_assoc s x (quote ∷ [])))

pub list-quoted : (t : EntityTag) (ts : List EntityTag) → EndsQuoted (print t ++ more_tags ts)
list-quoted t [] = let e : print t ++ [] ≡ print t = append-nil (print t) in rw e (print-quoted t)
list-quoted t (u ∷ us) = append-quoted (print t) _ (append-quoted (codes ", ") _ (list-quoted u us))

-- A tag starts neither with a comma nor with a star.
print-head : (t : EntityTag) → (c : ℕ) × (s : Bytes) × (print t ≡ c ∷ s) × (c ≢ b',') × (c ≢ b'*')
print-head t = by_mark t.weak
  where
    by_mark :
        (w : Bool)
        → (c : ℕ) × (s : Bytes) × (print (record { weak = w; opaque = t.opaque }) ≡ c ∷ s)
          × (c ≢ b',')
          × (c ≢ b'*')
    by_mark true = (b'W', _, refl, omega arith, omega arith)
    by_mark false = (quote, _, refl, omega arith, omega arith)

none_match_at-at :
    (go : Bytes → Checked) (etag tag rest : Bytes) (c : ℕ) (s : Bytes)
    → c ≢ b'*'
    → scan_etag (c ∷ s) ≡ some (tag, rest)
    → none_match_at go etag (c ∷ s)
      ≡ (if etag_weak_match tag etag then result cond_false else go rest)
none_match_at-at go etag tag rest c s m e = ground arith

pub none_match_turn-print :
    (go : Bytes → Checked) (t r : EntityTag) (rest : Bytes)
    → IsEntityTag t
    → EndsQuoted (print t ++ rest)
    → none_match_turn go (print r) (print t ++ rest)
      ≡ (if same_weak t r then result cond_false else go rest)
none_match_turn-print go t r rest h q =
    let (c, s, e, n, m) = print-head t in
    let whole : print t ++ rest ≡ c ∷ (s ++ rest) = ap (λ u. u ++ rest) e in
    let scan : scan_etag (c ∷ (s ++ rest)) ≡ some (print t, rest) =
      subst (λ u. scan_etag u ≡ some (print t, rest)) whole (scan_etag-print t rest h q) in
    let turn : none_match_turn go (print r) (c ∷ (s ++ rest))
        ≡ none_match_at go (print r) (c ∷ (s ++ rest)) =
      ground arith in
    subst
      (λ u. none_match_turn go (print r) u ≡ (if same_weak t r then result cond_false else go rest))
      (sym whole)
      (turn
        ∙ none_match_at-at go (print r) (print t) rest c (s ++ rest) m scan
        ∙ ap (λ b. if b then result cond_false else go rest) (etag_weak_match-print t r))

-- Behind the comma of a list, where the loop of checkIfNoneMatch does not trim.
pub none_match_at-print :
    (go : Bytes → Checked) (t r : EntityTag) (rest : Bytes)
    → IsEntityTag t
    → EndsQuoted (print t ++ rest)
    → none_match_at go (print r) (32 ∷ (print t ++ rest))
      ≡ (if same_weak t r then result cond_false else go rest)
none_match_at-print go t r rest h q =
    none_match_at-at go (print r) (print t) rest 32 (print t ++ rest) (omega arith)
      (scan_etag-space t rest h q)
    ∙ ap (λ b. if b then result cond_false else go rest) (etag_weak_match-print t r)

length-print : (t : EntityTag) → 2 ≤ length (print t)
length-print t = omega (
  arith,
  length-append (mark t.weak) (quote ∷ (t.opaque ++ quote ∷ [])),
  length-append t.opaque (quote ∷ []),
)

pub length-list :
    (t : EntityTag) (ts : List EntityTag) → 2 * length ts + 2 ≤ length (print t ++ more_tags ts)
length-list t [] = omega (arith, length-append (print t) [], length-print t)
length-list t (u ∷ us) =
    omega (arith, length-append (print t) (more_tags (u ∷ us)), length-print t, length-list u us)

pub list-ne-nil : (t : EntityTag) (ts : List EntityTag) → print t ++ more_tags ts ≢ []
list-ne-nil t ts e =
    let l : length (print t ++ more_tags ts) ≡ 0 = ap length e in omega (arith, l, length-list t ts)
