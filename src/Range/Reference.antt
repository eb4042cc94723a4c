-- ===== src/Range/Reference.antt =====
-- parseRange against RFC 7233, section 2.1: the byte ranges that a header in canonical form asks for.
use ssheasy.Base.{
  ℕ, ◌+◌, ◌-◌, ◌≤◌, ◌<◌, ◌^◌, Bool, true, false, ◌≡◌, refl, ap, ◌∙◌, ◌≢◌, List, [], ◌∷◌, ◌++◌, map,
  Option, none, some, arith, All, All-append, if◌then◌else◌, ltb, append_assoc, append-nil, ◌||◌,
  ◌==◌,
}
use ssheasy.Base.Int.{ℤ, pos}
use ssheasy.Base.Text.{Bytes, bytes_eq, bytes_eq_iff, cut}
use ssheasy.Base.Text.Laws.{
  Lacks, IsPlain, cut-append, trim_space-plain, join, split-join, has_prefix-append,
}
use ssheasy.Base.Decimal.{
  parse_int, format_nat, format_nat-IsDigit, format_nat-ne-nil, IsDigit, parse_int-format_nat,
}
use ssheasy.Range.{
  HttpRange, RangeResult, ok, err, no_overlap, Turn, behind, found, suffix_range, bounded_range,
  start_range, turn, go_on, finish, collect, unit_prefix, parse_range,
}
use ssheasy.Range.Bounds.{bounded-length, pos-sub, wrap-pos-sub}

-- A byte-range-spec, or a suffix-byte-range-spec.
pub data Spec : Type 0 where
  from_to : ℕ → ℕ → Spec
  from : ℕ → Spec
  last : ℕ → Spec

-- The numbers fit an int64, the first position is not behind the last, and a suffix is not empty.
abbrev pub IsValid : Spec → Type 0
IsValid (from_to a b) = (a ≤ b) × (b < 2 ^ 63)
IsValid (from a) = a < 2 ^ 63
IsValid (last n) = (1 ≤ n) × (n < 2 ^ 63)

pub print : Spec → Bytes
print (from_to a b) = format_nat a ++ b'-' ∷ format_nat b
print (from a) = format_nat a ++ b'-' ∷ []
print (last n) = b'-' ∷ format_nat n

-- The range that a spec asks for of a content of `size` bytes, if it can be satisfied: its first
-- position lies in the content, or it is a suffix of a length that is not zero.
abbrev min_nat : ℕ → ℕ → ℕ
min_nat a b = if ltb b a then b else a

pub resolve : ℕ → Spec → Option HttpRange
resolve size (from_to a b) =
    if ltb a size
    then some (record { start = pos a; length = pos (min_nat b (size - 1) - a + 1) })
    else none
resolve size (from a) =
    if ltb a size then some (record { start = pos a; length = pos (size - a) }) else none
resolve size (last n) =
    if n == 0
    then none
    else some (record { start = pos (size - min_nat n size); length = pos (min_nat n size) })

abbrev of_option : Option HttpRange → Turn
of_option none = behind
of_option (some r) = found r

IsDigit-IsPlain : (s : Bytes) → All IsDigit s → All IsPlain s
IsDigit-IsPlain [] h = tt
IsDigit-IsPlain (c ∷ s) (h, hs) = (omega arith, IsDigit-IsPlain s hs)

IsDigit-Lacks : (b : ℕ) (s : Bytes) → b < 48 → All IsDigit s → Lacks b s
IsDigit-Lacks b [] l h = tt
IsDigit-Lacks b (c ∷ s) l (h, hs) = (λ e. absurd (omega arith), IsDigit-Lacks b s l hs)

pub number-IsPlain : (n : ℕ) → All IsPlain (format_nat n)
number-IsPlain n = IsDigit-IsPlain _ (format_nat-IsDigit n)

pub number-Lacks : (b n : ℕ) → b < 48 → Lacks b (format_nat n)
number-Lacks b n h = IsDigit-Lacks b _ h (format_nat-IsDigit n)

print-IsPlain : (s : Spec) → All IsPlain (print s)
unfolding print
print-IsPlain (from_to a b) =
    All-append IsPlain (format_nat a) _ (number-IsPlain a) (omega arith, number-IsPlain b)
print-IsPlain (from a) = All-append IsPlain (format_nat a) _ (number-IsPlain a) (omega arith, tt)
print-IsPlain (last n) = (omega arith, number-IsPlain n)

print-Lacks : (s : Spec) → Lacks b',' (print s)
unfolding print
print-Lacks (from_to a b) =
    All-append _ (format_nat a) _ (number-Lacks b',' a (omega arith))
      (omega arith, number-Lacks b',' b (omega arith))
print-Lacks (from a) =
    All-append _ (format_nat a) _ (number-Lacks b',' a (omega arith)) (omega arith, tt)
print-Lacks (last n) = (omega arith, number-Lacks b',' n (omega arith))

-- The turn of a part that is cut into two trimmed texts.
pub turn-cut :
    (size : ℤ) (part u v : Bytes)
    → All IsPlain part
    → All IsPlain u
    → All IsPlain v
    → part ≢ []
    → cut b'-' part ≡ some (u, v)
    → turn size part ≡ (
        if bytes_eq u [] then suffix_range size (parse_int v) else start_range size (parse_int u) v)
unfolding turn
turn-cut size part u v hp hu hv ne e = ground (
  arith,
  trim_space-plain part hp,
  trim_space-plain u hu,
  trim_space-plain v hv,
  bytes_eq_iff part [],
)

bounded-resolve :
    (size a b : ℕ)
    → a ≤ b
    → a < size
    → size < 2 ^ 63
    → bounded_range (pos size) (pos a) (some (pos b))
      ≡ found (record { start = pos a; length = pos (min_nat b (size - 1) - a + 1) })
unfolding bounded_range
bounded-resolve size a b h k l = ground (
  arith,
  pos-sub size 1 (omega arith),
  bounded-length (size - 1) a (omega arith) (omega arith),
  λ (q : b < size). bounded-length b a h (omega arith),
)

start-resolve :
    (size a b : ℕ)
    → a ≤ b
    → b < 2 ^ 63
    → size < 2 ^ 63
    → start_range (pos size) (some (pos a)) (format_nat b) ≡ of_option (resolve size (from_to a b))
unfolding start_range resolve
start-resolve size a b h k l = ground (
  arith,
  λ (q : a < size). bounded-resolve size a b h q l,
  parse_int-format_nat b k,
  bytes_eq_iff (format_nat b) [],
  format_nat-ne-nil b,
)

open-resolve :
    (size a : ℕ)
    → size < 2 ^ 63
    → start_range (pos size) (some (pos a)) [] ≡ of_option (resolve size (from a))
unfolding start_range resolve
open-resolve size a l =
    ground (arith, bytes_eq_iff [] [], λ (q : a ≤ size). wrap-pos-sub size a q l)

suffix-resolve :
    (size n : ℕ)
    → size < 2 ^ 63
    → 1 ≤ n
    → suffix_range (pos size) (some (pos n)) ≡ of_option (resolve size (last n))
unfolding suffix_range resolve
suffix-resolve size n l k = ground (
  arith,
  wrap-pos-sub size size (omega arith) l,
  wrap-pos-sub size 0 (omega arith) l,
  λ (q : n ≤ size). wrap-pos-sub size n q l,
  wrap-pos-sub size (size - n) (omega arith) l,
)

append-eq-nil : (s t : Bytes) → s ++ t ≡ [] → t ≡ []
append-eq-nil [] t e = e
append-eq-nil (c ∷ s) t e = cc

print-ne-nil : (s : Spec) → print s ≢ []
unfolding print
print-ne-nil (from_to a b) e = ground (arith, append-eq-nil (format_nat a) _ e)
print-ne-nil (from a) e = ground (arith, append-eq-nil (format_nat a) _ e)
print-ne-nil (last n) e = cc

turn-print :
    (size : ℕ) (s : Spec)
    → size < 2 ^ 63
    → IsValid s
    → turn (pos size) (print s) ≡ of_option (resolve size s)
unfolding print
turn-print size (from_to a b) h (v, w) =
    turn-cut (pos size) (print (from_to a b)) (format_nat a) (format_nat b)
      (print-IsPlain (from_to a b)) (number-IsPlain a) (number-IsPlain b)
      (print-ne-nil (from_to a b))
      (cut-append b'-' (format_nat a) (format_nat b) (number-Lacks b'-' a (omega arith)))
    ∙ ground (
      arith,
      bytes_eq_iff (format_nat a) [],
      format_nat-ne-nil a,
      parse_int-format_nat a (omega arith),
      start-resolve size a b v w h,
    )
turn-print size (from a) h v =
    turn-cut (pos size) (print (from a)) (format_nat a) [] (print-IsPlain (from a))
      (number-IsPlain a) tt (print-ne-nil (from a))
      (cut-append b'-' (format_nat a) [] (number-Lacks b'-' a (omega arith)))
    ∙ ground (
      arith,
      bytes_eq_iff (format_nat a) [],
      format_nat-ne-nil a,
      parse_int-format_nat a v,
      open-resolve size a h,
    )
turn-print size (last n) h (v, w) =
    turn-cut (pos size) (print (last n)) [] (format_nat n) (print-IsPlain (last n)) tt
      (number-IsPlain n) (print-ne-nil (last n)) (cut-append b'-' [] (format_nat n) tt)
    ∙ ground (arith, bytes_eq_iff [] [], parse_int-format_nat n w, suffix-resolve size n h v)

abbrev add_hit : Option HttpRange → List HttpRange → List HttpRange
add_hit none rs = rs
add_hit (some r) rs = r ∷ rs

abbrev is_miss : Option HttpRange → Bool
is_miss none = true
is_miss (some r) = false

-- The ranges of the specs that overlap the content, in order, and whether some spec does not.
pub hits : ℕ → List Spec → List HttpRange
hits size [] = []
hits size (s ∷ ss) = add_hit (resolve size s) (hits size ss)

pub some_miss : ℕ → List Spec → Bool
some_miss size [] = false
some_miss size (s ∷ ss) = is_miss (resolve size s) || some_miss size ss

-- The answer to a header: the satisfiable ranges, or the error if there are none.
abbrev satisfied : List HttpRange → RangeResult
satisfied [] = err no_overlap
satisfied (r ∷ rs) = ok (r ∷ rs)

abbrev pub answer : ℕ → List Spec → RangeResult
answer size ss = satisfied (hits size ss)

-- One spec at least was asked for, so that there is a miss if there is no hit.
finish-answer :
    (size : ℕ) (s : Spec) (ss : List Spec)
    → finish (some_miss size (s ∷ ss)) (hits size (s ∷ ss)) ≡ answer size (s ∷ ss)
unfolding hits some_miss
finish-answer size s ss = go (resolve size s) (some_miss size ss) (hits size ss)
  where
    go :
        (o : Option HttpRange) (lost : Bool) (more : List HttpRange)
        → finish (is_miss o || lost) (add_hit o more) ≡ satisfied (add_hit o more)
    go none lost [] = refl
    go none lost (r ∷ rs) = refl
    go (some r) true more = refl
    go (some r) false more = refl

go_on-print :
    (o : Option HttpRange) (missed lost : Bool) (rs more : List HttpRange)
    (rest : Bool → List HttpRange → RangeResult)
    → ((missed : Bool) (rs : List HttpRange)
        → rest missed rs ≡ finish (missed || lost) (rs ++ more))
    → go_on (of_option o) missed rs rest
      ≡ finish (missed || (is_miss o || lost)) (rs ++ add_hit o more)
go_on-print none true lost rs more rest h = h true rs
go_on-print none false lost rs more rest h = h true rs
go_on-print (some r) missed lost rs more rest h =
    h missed (rs ++ r ∷ []) ∙ ap (finish (missed || lost)) (append_assoc rs (r ∷ []) more)

collect-print :
    (size : ℕ) (ss : List Spec) (missed : Bool) (rs : List HttpRange)
    → size < 2 ^ 63
    → All IsValid ss
    → collect (pos size) (map print ss) missed rs
      ≡ finish (missed || some_miss size ss) (rs ++ hits size ss)
unfolding collect hits some_miss
collect-print size [] true rs h v = rw (append-nil rs)
collect-print size [] false rs h v = rw (append-nil rs)
collect-print size (s ∷ ss) missed rs h (v, vs) = rw (turn-print size s h v) (
    go_on-print (resolve size s) missed (some_miss size ss) rs (hits size ss)
      (collect (pos size) (map print ss)) (λ missed rs. collect-print size ss missed rs h vs))

prints-Lack : (ss : List Spec) → All (Lacks b',') (map print ss)
prints-Lack [] = tt
prints-Lack (s ∷ ss) = (print-Lacks s, prints-Lack ss)

-- The header line for one or more specs.
abbrev pub header : Spec → List Spec → Bytes
header s ss = unit_prefix ++ join b',' (print s) (map print ss)

-- On a Range header of one or more ranges with single commas between them and no blanks, whose numbers
-- are below 2^63 and have no leading zeros, where no range has its first position behind its last and no
-- suffix has the length 0, and for a content whose size is an int64, parseRange returns what RFC 7233
-- asks for: the satisfiable ranges, in order, or the error of no overlap if there are none.
pub parse_range-header :
    (size : ℕ) (s : Spec) (ss : List Spec)
    → size < 2 ^ 63
    → All IsValid (s ∷ ss)
    → parse_range (header s ss) (pos size) ≡ answer size (s ∷ ss)
unfolding parse_range
parse_range-header size s ss h v = ground (
  arith,
  bytes_eq_iff (header s ss) [],
  has_prefix-append unit_prefix (join b',' (print s) (map print ss)),
  split-join b',' (print s) (map print ss) (print-Lacks s) (prints-Lack ss),
  collect-print size (s ∷ ss) false [] h v,
  finish-answer size s ss,
)
