-- ===== src/FileServer/Conditions/Ends.antt =====
-- The loops over If-Match and If-None-Match end, and what a precondition can answer.
use ssheasy.Base.{
  ℕ, zero, suc, ◌<◌, true, ◌≡◌, ◌≢◌, refl, ◌⊎◌, inl, inr, [], ◌∷◌, Option, none, arith, ◌==◌,
  length, Bool-cases, Option-cases,
}
use ssheasy.Base.Int.{ℤ}
use ssheasy.Base.Text.{Bytes, codes, bytes_eq, bytes_eq_iff, trim_string}
use ssheasy.Http.{Header, Request, get, method_get, method_head}
use ssheasy.FileServer.Etag.{scan_etag}
use ssheasy.FileServer.Etag.Laws.{scan_etag-shorter, trim_string-le}
use ssheasy.FileServer.Conditions.{
  CondResult, cond_none, cond_true, cond_false, Checked, result, panics, out_of_fuel, match_turn,
  match_loop, check_if_match, none_match_at, none_match_turn, none_match_loop, check_if_none_match,
  Verdict, goes_on, answered, aborts, ran_out, check_preconditions, is_get_or_head,
  write_not_modified, range_header, check_if_modified_since, check_if_range, if_range, if_modified,
  then_modified, none_match_of, failed_or_on, then_unmodified, etag_of,
}

match_turn-ends :
    (go : Bytes → Checked) (etag s : Bytes)
    → ((t : Bytes) → length t < length s → go t ≢ out_of_fuel)
    → match_turn go etag s ≢ out_of_fuel
match_turn-ends go etag [] h = λ e. cc
match_turn-ends go etag (c ∷ s) h = elim (Option-cases (scan_etag (c ∷ s))) [
  | inl n ↦ ground (arith, h s)
  | inr ((u, v), n) ↦ ground (arith, h s, h v, scan_etag-shorter (c ∷ s) u v n)
]

match_loop-ends : (n : ℕ) (etag s : Bytes) → length s < n → match_loop n etag s ≢ out_of_fuel
unfolding match_loop
match_loop-ends zero etag s l = absurd (omega arith)
match_loop-ends (suc n) etag s l =
    match_turn-ends (match_loop n etag) etag (trim_string s)
      (λ t lt. match_loop-ends n etag t (omega (arith, trim_string-le s)))

none_match_at-ends :
    (go : Bytes → Checked) (etag s : Bytes)
    → ((t : Bytes) → length t < length s → go t ≢ out_of_fuel)
    → none_match_at go etag s ≢ out_of_fuel
none_match_at-ends go etag [] h = λ e. cc
none_match_at-ends go etag (c ∷ s) h = elim (Option-cases (scan_etag (c ∷ s))) [
  | inl n ↦ ground arith
  | inr ((u, v), n) ↦ ground (arith, h v, scan_etag-shorter (c ∷ s) u v n)
]

none_match_turn-ends :
    (go : Bytes → Checked) (etag s : Bytes)
    → ((t : Bytes) → length t < length s → go t ≢ out_of_fuel)
    → none_match_turn go etag s ≢ out_of_fuel
none_match_turn-ends go etag [] h = λ e. cc
none_match_turn-ends go etag (c ∷ s) h = elim (Bool-cases (c == b',')) [
  | inl e ↦ rw (e) (none_match_at-ends go etag s (λ t l. h t (omega arith)))
  | inr e ↦ rw (e) (none_match_at-ends go etag (c ∷ s) h)
]

none_match_loop-ends :
    (n : ℕ) (etag s : Bytes) → length s < n → none_match_loop n etag s ≢ out_of_fuel
unfolding none_match_loop
none_match_loop-ends zero etag s l = absurd (omega arith)
none_match_loop-ends (suc n) etag s l =
    none_match_turn-ends (none_match_loop n etag) etag (trim_string s)
      (λ t lt. none_match_loop-ends n etag t (omega (arith, trim_string-le s)))

check_if_match-ends : (im etag : Bytes) → check_if_match im etag ≢ out_of_fuel
unfolding check_if_match
check_if_match-ends im etag = ground (arith, match_loop-ends (suc (length im)) etag im)

check_if_none_match-ends : (inm etag : Bytes) → check_if_none_match inm etag ≢ out_of_fuel
unfolding check_if_none_match
check_if_none_match-ends inm etag = ground (arith, none_match_loop-ends (suc (length inm)) etag inm)

-- What a precondition may come to: the request goes on with its Range header or without one; it is
-- refused with 412 and the headers that the response had; or, for GET and HEAD only, 304 is answered
-- without the headers of a body. No loop is cut short.
abbrev pub IsLawful : Header → Request → Verdict → Type 0
IsLawful w r (goes_on range) = (range ≡ []) ⊎ (range ≡ get r.header (codes "Range"))
IsLawful w r (answered code h) =
    ((code ≡ 412) × (h ≡ w))
    ⊎ ((code ≡ 304)
        × ((r.method ≡ method_get) ⊎ (r.method ≡ method_head))
        × (h (codes "Content-Type") ≡ none)
        × (h (codes "Content-Length") ≡ none))
IsLawful w r aborts = Unit
IsLawful w r ran_out = ⊥

module _ (parse_time : Bytes → Option ℤ) (format_time : ℤ → Bytes) (w : Header) (r : Request)
    (modtime : ℤ) where
  write_not_modified-IsLawful :
      is_get_or_head parse_time format_time r ≡ true
      → IsLawful w r (write_not_modified parse_time format_time w)
  unfolding write_not_modified bytes_eq
  write_not_modified-IsLawful g = inr (
    refl,
    ground (arith, bytes_eq_iff r.method method_get, bytes_eq_iff r.method method_head),
    ground arith,
    ground arith,
  )

  if_range-IsLawful :
      (c : CondResult)
      → IsLawful w r (if_range parse_time format_time (get r.header (codes "Range")) c)
  if_range-IsLawful cond_false = inl refl
  if_range-IsLawful cond_true = inr refl
  if_range-IsLawful cond_none = inr refl

  range_header-IsLawful : IsLawful w r (range_header parse_time format_time w r modtime)
  range_header-IsLawful = elim (Bool-cases (bytes_eq (get r.header (codes "Range")) [])) [
    | inl e ↦ rw (e) (inr refl)
    | inr e ↦ rw (e) (if_range-IsLawful (check_if_range parse_time format_time w r modtime))
  ]

  modified_get :
      check_if_modified_since parse_time format_time r modtime ≡ cond_false
      → is_get_or_head parse_time format_time r ≡ true
  unfolding check_if_modified_since
  modified_get e = ground arith

  if_modified-IsLawful :
      (c : CondResult)
      → (c ≡ cond_false → is_get_or_head parse_time format_time r ≡ true)
      → IsLawful w r (if_modified parse_time format_time w r modtime c)
  if_modified-IsLawful cond_false h = write_not_modified-IsLawful (h refl)
  if_modified-IsLawful cond_true h = range_header-IsLawful
  if_modified-IsLawful cond_none h = range_header-IsLawful

  then_modified-IsLawful :
      (c : Checked)
      → c ≢ out_of_fuel
      → IsLawful w r (then_modified parse_time format_time w r modtime c)
  then_modified-IsLawful panics h = tt
  then_modified-IsLawful out_of_fuel h = h refl
  then_modified-IsLawful (result cond_false) h =
      elim (Bool-cases (is_get_or_head parse_time format_time r)) [
        | inl g ↦ rw (g) (write_not_modified-IsLawful g)
        | inr g ↦ rw (g) (inl (refl, refl))
      ]
  then_modified-IsLawful (result cond_none) h = if_modified-IsLawful _ modified_get
  then_modified-IsLawful (result cond_true) h = range_header-IsLawful

  none_match-IsLawful :
      IsLawful w r (
        then_modified parse_time format_time w r modtime (none_match_of parse_time format_time w r))
  none_match-IsLawful =
      then_modified-IsLawful _
        (check_if_none_match-ends (get r.header (codes "If-None-Match")) (etag_of w))

  failed_or_on-IsLawful :
      (c : CondResult) → IsLawful w r (failed_or_on parse_time format_time w r modtime c)
  failed_or_on-IsLawful cond_false = inl (refl, refl)
  failed_or_on-IsLawful cond_true = none_match-IsLawful
  failed_or_on-IsLawful cond_none = none_match-IsLawful

  then_unmodified-IsLawful :
      (c : Checked)
      → c ≢ out_of_fuel
      → IsLawful w r (then_unmodified parse_time format_time w r modtime c)
  then_unmodified-IsLawful panics h = tt
  then_unmodified-IsLawful out_of_fuel h = h refl
  then_unmodified-IsLawful (result cond_none) h = failed_or_on-IsLawful _
  then_unmodified-IsLawful (result cond_true) h = failed_or_on-IsLawful cond_true
  then_unmodified-IsLawful (result cond_false) h = failed_or_on-IsLawful cond_false

  -- For every request and every response so far, checkPreconditions ends without using up the fuel of
  -- its loops. Unless it panics, the request goes on with no range or with the one it asks for, or it is
  -- refused with 412 and the headers unchanged, or, for GET and HEAD only, answered with 304 and neither
  -- Content-Type nor Content-Length.
  pub check_preconditions-IsLawful :
      IsLawful w r (check_preconditions parse_time format_time w r modtime)
  unfolding check_preconditions
  check_preconditions-IsLawful =
      then_unmodified-IsLawful _ (check_if_match-ends (get r.header (codes "If-Match")) (etag_of w))
