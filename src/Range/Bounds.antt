-- ===== src/Range/Bounds.antt =====
-- Where the ranges that parseRange returns lie.
use mathlib.Core.List.{Mem, mem-cons_self, mem-cons_of_mem}
use ssheasy.Base.{
  ℕ, suc, ◌+◌, ◌-◌, ◌≤◌, ◌<◌, ◌^◌, Bool, true, false, ◌≡◌, refl, ap, ◌⊎◌, inl, inr, List, [], ◌∷◌,
  ◌++◌, Option, none, some, arith, All, All-append, Option-cases, Bool-cases, drop,
}
use ssheasy.Base.Int.{ℤ, pos, negsuc, ◌+ℤ◌, ◌-ℤ◌, ltb_ℤ, leb_ℤ, wrap64, wrap64_id}
use ssheasy.Base.Text.{Bytes, bytes_eq, bytes_eq_iff, has_prefix, split, cut, trim_space}
use ssheasy.Base.Decimal.{parse_int}
use ssheasy.Range.{
  HttpRange, RangeResult, ok, err, Turn, skip, behind, invalid, found, suffix_range, bounded_range,
  start_range, turn, go_on, finish, collect, unit_prefix, parse_range,
}

-- The range lies in the content.
pub record IsInside (size : ℕ) (r : HttpRange) : Type 0 where
  pub begin : ℕ
  pub count : ℕ
  pub at : r.start ≡ pos begin
  pub long : r.length ≡ pos count
  pub fits : begin + count ≤ size

-- The part of the header is a suffix `-v` whose number `v` is negative, -(excess + 1).
pub record IsNegativeSuffix (part : Bytes) (excess : ℕ) : Type 0 where
  pub before : Bytes
  pub after : Bytes
  pub at_dash : cut b'-' (trim_space part) ≡ some (before, after)
  pub no_start : trim_space before ≡ []
  pub negative : parse_int (trim_space after) ≡ some (negsuc excess)

-- The range of a negative suffix among the parts of the header: it starts behind the end, or, past the
-- int64 range, before the content, and its length is negative.
pub record IsOutside (parts : List Bytes) (size : ℕ) (r : HttpRange) : Type 0 where
  pub part : Bytes
  pub excess : ℕ
  pub among : Mem part parts
  pub asked : IsNegativeSuffix part excess
  pub start_at : r.start ≡ wrap64 (pos (size + suc excess))
  pub short : r.length ≡ wrap64 (pos size -ℤ r.start)

abbrev pub IsPlaced : List Bytes → ℕ → HttpRange → Type 0
IsPlaced parts size r = IsInside size r ⊎ IsOutside parts size r

-- A range that one turn finds in its part.
abbrev Placed? : List Bytes → ℕ → Turn → Type 0
Placed? parts size (found r) = IsPlaced parts size r
Placed? parts size _ = Unit

pub pos-sub : (a b : ℕ) → b ≤ a → pos a -ℤ pos b ≡ pos (a - b)
unfolding ◌-ℤ◌
pos-sub a b h = ground arith

wrap-pos : (n : ℕ) → n < 2 ^ 63 → wrap64 (pos n) ≡ pos n
wrap-pos n h = wrap64_id (pos n) (omega arith)

pub wrap-pos-sub : (a b : ℕ) → b ≤ a → a < 2 ^ 63 → wrap64 (pos a -ℤ pos b) ≡ pos (a - b)
wrap-pos-sub a b h k = rw (pos-sub a b h) (wrap-pos (a - b) (omega arith))

pub sub-negsuc : (a i : ℕ) → pos a -ℤ negsuc i ≡ pos (a + suc i)
unfolding ◌-ℤ◌
sub-negsuc a i = ground arith

suffix-IsInside :
    (size j : ℕ)
    → j ≤ size
    → size < 2 ^ 63
    → let start = wrap64 (pos size -ℤ pos j) in
      IsInside size (record { start = start; length = wrap64 (pos size -ℤ start) })
suffix-IsInside size j h k = record {
  begin = size - j;
  count = j;
  at = wrap-pos-sub size j h k;
  long =
      rw (wrap-pos-sub size j h k, wrap-pos-sub size (size - j) (omega arith) k)
        (ap pos (omega arith));
  fits = omega arith;
}

suffix_range-Placed :
    (parts : List Bytes) (size : ℕ) (part u v : Bytes)
    → Mem part parts
    → cut b'-' (trim_space part) ≡ some (u, v)
    → trim_space u ≡ []
    → size < 2 ^ 63
    → Placed? parts size (suffix_range (pos size) (parse_int (trim_space v)))
unfolding suffix_range
suffix_range-Placed parts size part u v m c n h = go (parse_int (trim_space v)) refl
  where
    go :
        (o : Option ℤ)
        → parse_int (trim_space v) ≡ o
        → Placed? parts size (suffix_range (pos size) o)
    go none e = tt
    go (some (pos i)) e = elim (Bool-cases (ltb_ℤ (pos size) (pos i))) [
      | inl q ↦ rw q (inl (suffix-IsInside size size (omega arith) h))
      | inr q ↦ rw q (inl (suffix-IsInside size i (ground arith) h))
    ]
    go (some (negsuc i)) e = inr (record {
      part = part;
      excess = i;
      among = m;
      asked = record { before = u; after = v; at_dash = c; no_start = n; negative = e };
      start_at = ground (arith, sub-negsuc size i);
      short = refl;
    })

pos-add : (a b : ℕ) → pos a +ℤ pos b ≡ pos (a + b)
unfolding ◌+ℤ◌
pos-add a b = ground arith

pub bounded-length :
    (last i : ℕ)
    → i ≤ last
    → last < 2 ^ 63 - 1
    → wrap64 (pos last -ℤ pos i +ℤ pos 1) ≡ pos (last - i + 1)
bounded-length last i h k =
    rw (pos-sub last i h, pos-add (last - i) 1) (wrap-pos (last - i + 1) (omega arith))

bounded-IsInside :
    (size last i : ℕ)
    → i ≤ last
    → last < size
    → size < 2 ^ 63
    → IsInside size (record { start = pos i; length = wrap64 (pos last -ℤ pos i +ℤ pos 1) })
bounded-IsInside size last i h k l = record {
  begin = i;
  count = last - i + 1;
  at = refl;
  long = bounded-length last i h (omega arith);
  fits = omega arith;
}

bounded_range-Placed :
    (parts : List Bytes) (size i : ℕ) (o : Option ℤ)
    → i < size
    → size < 2 ^ 63
    → Placed? parts size (bounded_range (pos size) (pos i) o)
unfolding bounded_range
bounded_range-Placed parts size i none h k = tt
bounded_range-Placed parts size i (some (negsuc j)) h k =
    let e : ltb_ℤ (negsuc j) (pos i) ≡ true = ground arith in rw e tt
bounded_range-Placed parts size i (some (pos j)) h k = elim (Bool-cases (ltb_ℤ (pos j) (pos i))) [
  | inl e ↦ rw e tt
  | inr e ↦ elim (Bool-cases (leb_ℤ (pos size) (pos j))) [
    | inl f ↦
        rw (e, f, pos-sub size 1 (omega arith))
          (inl (bounded-IsInside size (size - 1) i (omega arith) (omega arith) k))
    | inr f ↦ rw (e, f) (inl (bounded-IsInside size j i (ground arith) (ground arith) k))
  ]
]

rest-IsInside :
    (size i : ℕ)
    → i ≤ size
    → size < 2 ^ 63
    → IsInside size (record { start = pos i; length = wrap64 (pos size -ℤ pos i) })
rest-IsInside size i h k = record {
  begin = i;
  count = size - i;
  at = refl;
  long = wrap-pos-sub size i h k;
  fits = omega arith;
}

start_range-Placed :
    (parts : List Bytes) (size : ℕ) (o : Option ℤ) (end : Bytes)
    → size < 2 ^ 63
    → Placed? parts size (start_range (pos size) o end)
unfolding start_range
start_range-Placed parts size none end h = tt
start_range-Placed parts size (some (negsuc i)) end h =
    let e : ltb_ℤ (negsuc i) (pos 0) ≡ true = ground arith in rw e tt
start_range-Placed parts size (some (pos i)) end h = elim (Bool-cases (ltb_ℤ (pos i) (pos 0))) [
  | inl e ↦ rw e tt
  | inr e ↦ elim (Bool-cases (leb_ℤ (pos size) (pos i))) [
    | inl f ↦ rw (e, f) tt
    | inr f ↦ elim (Bool-cases (bytes_eq end [])) [
      | inl g ↦ rw (e, f, g) (inl (rest-IsInside size i (ground arith) h))
      | inr g ↦ rw (e, f, g) (bounded_range-Placed parts size i (parse_int end) (ground arith) h)
    ]
  ]
]

turn-Placed :
    (parts : List Bytes) (size : ℕ) (part : Bytes)
    → Mem part parts
    → size < 2 ^ 63
    → Placed? parts size (turn (pos size) part)
unfolding turn
turn-Placed parts size part m h = elim (Bool-cases (bytes_eq (trim_space part) [])) [
  | inl e ↦ rw e tt
  | inr e ↦ elim (Option-cases (cut b'-' (trim_space part))) [
    | inl f ↦ rw (e, f, turn) tt
    | inr ((u, v), f) ↦ elim (Bool-cases (bytes_eq (trim_space u) [])) [
      | inl g ↦
          rw (e, f, g, turn)
            (suffix_range-Placed parts size part u v m f ((bytes_eq_iff (trim_space u) []).0 g) h)
      | inr g ↦
          rw (e, f, g, turn)
            (start_range-Placed parts size (parse_int (trim_space u)) (trim_space v) h)
    ]
  ]
]

abbrev AllPlaced : List Bytes → ℕ → RangeResult → Type 0
AllPlaced parts size (ok rs) = All (IsPlaced parts size) rs
AllPlaced parts size (err e) = Unit

-- What is said of the ranges of the header `s`, whose parts are those between the commas.
abbrev pub ArePlaced : Bytes → ℕ → RangeResult → Type 0
ArePlaced s size answer = AllPlaced (split b',' (drop 6 s)) size answer

finish-Placed :
    (parts : List Bytes) (size : ℕ) (missed : Bool) (rs : List HttpRange)
    → All (IsPlaced parts size) rs
    → AllPlaced parts size (finish missed rs)
finish-Placed parts size true [] h = tt
finish-Placed parts size true (r ∷ rs) h = h
finish-Placed parts size false rs h = h

go_on-Placed :
    (parts : List Bytes) (size : ℕ) (t : Turn) (missed : Bool) (rs : List HttpRange)
    (rest : Bool → List HttpRange → RangeResult)
    → Placed? parts size t
    → All (IsPlaced parts size) rs
    → ((missed : Bool) (rs : List HttpRange)
        → All (IsPlaced parts size) rs
        → AllPlaced parts size (rest missed rs))
    → AllPlaced parts size (go_on t missed rs rest)
go_on-Placed parts size skip missed rs rest p l k = k missed rs l
go_on-Placed parts size behind missed rs rest p l k = k true rs l
go_on-Placed parts size invalid missed rs rest p l k = tt
go_on-Placed parts size (found r) missed rs rest p l k =
    k missed (rs ++ r ∷ []) (All-append (IsPlaced parts size) rs (r ∷ []) l (p, tt))

collect-Placed :
    (all : List Bytes) (size : ℕ) (parts : List Bytes) (missed : Bool) (rs : List HttpRange)
    → size < 2 ^ 63
    → All (λ p. Mem p all) parts
    → All (IsPlaced all size) rs
    → AllPlaced all size (collect (pos size) parts missed rs)
unfolding collect
collect-Placed all size [] missed rs h m l = finish-Placed all size missed rs l
collect-Placed all size (part ∷ parts) missed rs h (m, ms) l =
    go_on-Placed all size (turn (pos size) part) missed rs (collect (pos size) parts)
      (turn-Placed all size part m h) l
      (λ missed rs l. collect-Placed all size parts missed rs h ms l)

-- All parts are among themselves.
all-among :
    (all parts : List Bytes) → ((p : Bytes) → Mem p parts → Mem p all) → All (λ p. Mem p all) parts
all-among all [] h = tt
all-among all (p ∷ ps) h =
    (h p (mem-cons_self {a = p} {l = ps}), all-among all ps (λ q m. h q (mem-cons_of_mem p m)))

-- Every range that parseRange returns for a content of `size` bytes lies inside it, unless a part of the
-- header is a suffix with a negative number, and the range is the one of that number.
pub parse_range-Placed :
    (s : Bytes) (size : ℕ) → size < 2 ^ 63 → ArePlaced s size (parse_range s (pos size))
unfolding parse_range
parse_range-Placed s size h = elim (Bool-cases (bytes_eq s [])) [
  | inl e ↦ rw e tt
  | inr e ↦ elim (Bool-cases (has_prefix s unit_prefix)) [
    | inl f ↦
        let parts = split b',' (drop 6 s) in
        rw (e, f) (collect-Placed parts size parts false [] h (all-among parts parts (λ p m. m)) tt)
    | inr f ↦ rw (e, f) tt
  ]
]
