-- ===== src/Range/Negative.antt =====
-- A suffix with a negative number, `bytes=--n`, which RFC 7233 does not allow and parseRange accepts.
use ssheasy.Base.{ℕ, suc, ◌+◌, ◌<◌, ◌^◌, ◌≡◌, ◌∙◌, [], ◌∷◌, ◌++◌, some, arith}
use ssheasy.Base.Int.{pos, negsuc, ◌-ℤ◌, wrap64, wrap64_id}
use ssheasy.Base.Text.{Bytes, bytes_eq_iff}
use ssheasy.Base.Text.Laws.{cut-append, split-Lacks, has_prefix-append}
use ssheasy.Base.Decimal.{parse_int, format_int, format_nat, parse_int-format_int}
use ssheasy.Range.{ok, found, suffix_range, turn, collect, unit_prefix, parse_range}
use ssheasy.Range.Reference.{turn-cut, number-IsPlain, number-Lacks}
use ssheasy.Range.Bounds.{sub-negsuc}

-- The text `--n` for the positive number n = k + 1.
abbrev pub double_dash : ℕ → Bytes
double_dash k = b'-' ∷ b'-' ∷ format_nat (suc k)

negative-length :
    (size k : ℕ)
    → size + suc k < 2 ^ 63
    → wrap64 (pos size -ℤ wrap64 (pos size -ℤ negsuc k)) ≡ negsuc k
unfolding ◌-ℤ◌ wrap64
negative-length size k h = ground arith

minus-read : (k : ℕ) → k < 2 ^ 63 → parse_int (b'-' ∷ format_nat (suc k)) ≡ some (negsuc k)
unfolding format_int
minus-read k h = parse_int-format_int (negsuc k) (omega arith)

suffix-negative :
    (size k : ℕ)
    → size + suc k < 2 ^ 63
    → suffix_range (pos size) (some (negsuc k))
      ≡ found (record { start = pos (size + suc k); length = negsuc k })
unfolding suffix_range
suffix-negative size k h = ground (
  arith,
  sub-negsuc size k,
  wrap64_id (pos (size + suc k)) (omega arith),
  negative-length size k h,
)

turn-double_dash :
    (size k : ℕ)
    → size + suc k < 2 ^ 63
    → turn (pos size) (double_dash k)
      ≡ found (record { start = pos (size + suc k); length = negsuc k })
turn-double_dash size k h =
    turn-cut (pos size) (double_dash k) [] (b'-' ∷ format_nat (suc k))
      (omega arith, (omega arith, number-IsPlain (suc k))) tt (omega arith, number-IsPlain (suc k))
      (λ e. cc) (cut-append b'-' [] (b'-' ∷ format_nat (suc k)) tt)
    ∙ ground (arith, bytes_eq_iff [] [], minus-read k (omega arith), suffix-negative size k h)

-- For every content and every positive n, whose sum with the size fits an int64, the header bytes=--n
-- is answered with one range that starts n bytes behind the end and has the length -n.
parse_range-double_dash :
    (size k : ℕ)
    → size + suc k < 2 ^ 63
    → parse_range (unit_prefix ++ double_dash k) (pos size)
      ≡ ok (record { start = pos (size + suc k); length = negsuc k } ∷ [])
unfolding parse_range collect
parse_range-double_dash size k h = ground (
  arith,
  bytes_eq_iff (unit_prefix ++ double_dash k) [],
  has_prefix-append unit_prefix (double_dash k),
  split-Lacks b',' (double_dash k)
      (omega arith, (omega arith, number-Lacks b',' (suc k) (omega arith))),
  turn-double_dash size k h,
)
