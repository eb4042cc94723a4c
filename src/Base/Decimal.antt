-- ===== src/Base/Decimal.antt =====
-- strconv.FormatInt(i, 10), strconv.Itoa and strconv.ParseInt(s, 10, 64), with their round trip.
use Prim.Native.Nat.{ℕ, zero, suc, ◌+◌, ◌-◌, ◌*◌, ◌/◌, ◌%◌, ◌^◌, ◌≤◌, ◌<◌}
use mathlib.Core.Path.{◌≡◌, refl}
use mathlib.Core.Logic.{◌≢◌}
use mathlib.Core.Bool.{Bool, true, false, ◌||◌}
use mathlib.Core.List.{[], ◌∷◌}
use mathlib.Core.Option.{Option, none, some}
use native.Mathlib.Omega.{arith}
use native.Mathlib.Nat.{pow-suc}
use ssheasy.Base.Tests.{ltb, ◌==◌, if◌then◌else◌}
use ssheasy.Base.Lists.{All, length}
use ssheasy.Base.Int.{ℤ, pos, negsuc, IsInt64}
use ssheasy.Base.Text.{Bytes, codes}

-- The digits of `n` in front of `out`; the fuel bounds the number of digits.
emit : ℕ → ℕ → Bytes → Bytes
emit zero n out = out
emit (suc f) n out =
    let rest = emit f (n / 10) ((b'0' + n % 10) ∷ out) in if n == 0 then out else rest

unfoldable pub format_nat : ℕ → Bytes
unfolding emit
format_nat n = if n == 0 then b'0' ∷ [] else emit n n []

unfoldable pub format_int : ℤ → Bytes
unfolding format_nat
format_int (pos n) = format_nat n
format_int (negsuc n) = b'-' ∷ format_nat (suc n)

unfoldable pub scan : Bytes → ℕ → Option ℕ
scan [] n = some n
scan (c ∷ s) n = if ltb c b'0' || ltb b'9' c then none else scan s (n * 10 + (c - b'0'))

-- One or more digits.
unfoldable pub parse_digits : Bytes → Option ℕ
unfolding scan
parse_digits [] = none
parse_digits (c ∷ s) = scan (c ∷ s) 0

-- The sign is applied to a magnitude that must fit the int64 range.
unfoldable pub signed : Bool → Option ℕ → Option ℤ
signed negative none = none
signed false (some n) = if ltb n (2 ^ 63) then some (pos n) else none
signed true (some zero) = some (pos 0)
signed true (some (suc n)) = if ltb n (2 ^ 63) then some (negsuc n) else none

-- `none` is every error that ParseInt returns: bad syntax, or out of range.
unfoldable pub parse_int : Bytes → Option ℤ
unfolding parse_digits signed
parse_int [] = none
parse_int (c ∷ s) =
    if c == b'-'
    then signed true (parse_digits s)
    else if c == b'+'
    then signed false (parse_digits s)
    else signed false (parse_digits (c ∷ s))

abbrev pub IsDigit : ℕ → Type 0
IsDigit c = (b'0' ≤ c) × (c ≤ b'9')

scan-emit : (f n : ℕ) (out : Bytes) → n ≤ f → scan (emit f n out) 0 ≡ scan out n
unfolding emit
scan-emit zero zero out h = refl
scan-emit zero (suc n) out h = absurd (omega arith)
scan-emit (suc f) n out h = ground (arith, scan-emit f (n / 10) ((b'0' + n % 10) ∷ out), last)
  where
    last : scan ((b'0' + n % 10) ∷ out) (n / 10) ≡ scan out n
    last = unfold scan in ground arith

emit-IsDigit : (f n : ℕ) (out : Bytes) → All IsDigit out → All IsDigit (emit f n out)
unfolding emit
emit-IsDigit zero n out h = h
emit-IsDigit (suc f) n out h = ground (arith, emit-IsDigit f (n / 10) ((b'0' + n % 10) ∷ out))

emit-ne-nil : (f n : ℕ) (out : Bytes) → out ≢ [] → emit f n out ≢ []
unfolding emit
emit-ne-nil zero n out h = h
emit-ne-nil (suc f) n out h = ground (arith, emit-ne-nil f (n / 10) ((b'0' + n % 10) ∷ out))

pub format_nat-IsDigit : (n : ℕ) → All IsDigit (format_nat n)
unfolding format_nat
format_nat-IsDigit n = ground (arith, emit-IsDigit n n [] tt)

pub format_nat-ne-nil : (n : ℕ) → format_nat n ≢ []
unfolding format_nat
format_nat-ne-nil zero = ground arith
format_nat-ne-nil (suc n) =
    ground (arith, emit-ne-nil n (suc n / 10) ((b'0' + suc n % 10) ∷ []) (λ e. cc))

parse_digits-scan : (s : Bytes) → s ≢ [] → parse_digits s ≡ scan s 0
unfolding parse_digits
parse_digits-scan [] h = absurd (h refl)
parse_digits-scan (c ∷ s) h = refl

scan-format_nat : (n : ℕ) → scan (format_nat n) 0 ≡ some n
unfolding format_nat scan
scan-format_nat zero = refl
scan-format_nat (suc n) = ground (arith, scan-emit (suc n) (suc n) [] (omega arith))

pub parse_digits-format_nat : (n : ℕ) → parse_digits (format_nat n) ≡ some n
parse_digits-format_nat n = rw (parse_digits-scan _ (format_nat-ne-nil n)) (scan-format_nat n)

parse_int-unsigned :
    (s : Bytes) → s ≢ [] → All IsDigit s → parse_int s ≡ signed false (parse_digits s)
unfolding parse_int
parse_int-unsigned [] h d = absurd (h refl)
parse_int-unsigned (c ∷ s) h d = ground arith

pub parse_int-format_nat : (n : ℕ) → n < 2 ^ 63 → parse_int (format_nat n) ≡ some (pos n)
unfolding signed
parse_int-format_nat n h =
    rw
      (parse_int-unsigned _ (format_nat-ne-nil n) (format_nat-IsDigit n), parse_digits-format_nat n)
      (ground arith)

-- Every int64 is read back from its decimal print.
pub parse_int-format_int : (x : ℤ) → IsInt64 x → parse_int (format_int x) ≡ some x
unfolding parse_int format_int
parse_int-format_int (pos n) h = parse_int-format_nat n h.0
parse_int-format_int (negsuc n) h = rw (parse_digits-format_nat (suc n)) (ground arith)

tenth : (k n : ℕ) → n < 10 ^ suc k → n / 10 < 10 ^ k
tenth k n h = omega (arith, pow-suc 10 k)

length-emit : (k f n : ℕ) (out : Bytes) → n < 10 ^ k → length (emit f n out) ≤ length out + k
unfolding emit
length-emit k zero n out h = omega arith
length-emit zero (suc f) n out h = ground arith
length-emit (suc k) (suc f) n out h =
    ground (arith, length-emit k f (n / 10) ((b'0' + n % 10) ∷ out) (tenth k n h))

-- A number below a million has at most six digits.
pub length-format_nat : (n : ℕ) → n < 1000000 → length (format_nat n) ≤ 6
unfolding format_nat
length-format_nat n h = ground (arith, length-emit 6 n n [] h)

sample : parse_int (codes "-9223372036854775808") ≡ some (negsuc (2 ^ 63 - 1))
unfolding parse_int
sample = refl

printed : format_int (pos 1700000000) ≡ codes "1700000000"
unfolding format_int
printed = refl
