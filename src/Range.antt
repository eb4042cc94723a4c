-- ===== src/Range.antt =====
-- proxy/fileserver.go: httpRange, parseRange and sumRangesSize. Positions and lengths are int64, with
-- the wrap-around written out where a result could leave the range.
pub mod Bounds
pub mod Reference
pub mod Negative
pub mod Sums
mod Examples
use ssheasy.Base.{
  ℕ, ◌+◌, ◌-◌, Bool, true, false, ◌||◌, ◌&&◌, not, List, [], ◌∷◌, ◌++◌, Option, none, some,
  if◌then◌else◌, length, drop,
}
use ssheasy.Base.Int.{ℤ, pos, ◌+ℤ◌, ◌-ℤ◌, ltb_ℤ, leb_ℤ, wrap64}
use ssheasy.Base.Text.{Bytes, codes, bytes_eq, has_prefix, split, cut, trim_space}
use ssheasy.Base.Decimal.{parse_int}

pub record HttpRange : Type 0 where
  pub start : ℤ
  pub length : ℤ

pub data RangeError : Type 0 where
  invalid_range no_overlap : RangeError

pub data RangeResult : Type 0 where
  ok : List HttpRange → RangeResult
  err : RangeError → RangeResult

-- What one turn of the loop finds: nothing, a range, a range behind the end, or a reason to return.
pub data Turn : Type 0 where
  skip behind invalid : Turn
  found : HttpRange → Turn

-- No start: the last `i` bytes.
unfoldable pub suffix_range : ℤ → Option ℤ → Turn
suffix_range size none = invalid
suffix_range size (some i) =
    let j = (if ltb_ℤ size i then size else i) in
    let start = wrap64 (size -ℤ j) in
    found (record { start = start; length = wrap64 (size -ℤ start) })

unfoldable pub bounded_range : ℤ → ℤ → Option ℤ → Turn
bounded_range size start none = invalid
bounded_range size start (some i) =
    if ltb_ℤ i start
    then invalid
    else let j = (if leb_ℤ size i then size -ℤ pos 1 else i) in
      found (record { start = start; length = wrap64 (j -ℤ start +ℤ pos 1) })

unfoldable pub start_range : ℤ → Option ℤ → Bytes → Turn
start_range size none end = invalid
start_range size (some i) end =
    if ltb_ℤ i (pos 0)
    then invalid
    else if leb_ℤ size i
    then behind
    else if bytes_eq end []
    then found (record { start = i; length = wrap64 (size -ℤ i) })
    else bounded_range size i (parse_int end)

-- The body of the loop for one part of the header.
unfoldable pub turn : ℤ → Bytes → Turn
turn size part =
    let ra = trim_space part in
    if bytes_eq ra [] then skip else elim (cut b'-' ra) [
      | none ↦ invalid
      | some (u, v) ↦
          let start = trim_space u in
          let end = trim_space v in
          if bytes_eq start []
          then suffix_range size (parse_int end)
          else start_range size (parse_int start) end
    ]

-- What follows the loop.
abbrev pub finish : Bool → List HttpRange → RangeResult
finish true [] = err no_overlap
finish _ ranges = ok ranges

-- How a turn goes on with the rest of the loop, `rest`.
abbrev pub go_on :
    Turn → Bool → List HttpRange → (Bool → List HttpRange → RangeResult) → RangeResult
go_on skip missed ranges rest = rest missed ranges
go_on behind missed ranges rest = rest true ranges
go_on invalid missed ranges rest = err invalid_range
go_on (found r) missed ranges rest = rest missed (ranges ++ r ∷ [])

-- The loop, with noOverlap and the ranges found so far.
unfoldable pub collect : ℤ → List Bytes → Bool → List HttpRange → RangeResult
collect size [] missed ranges = finish missed ranges
collect size (part ∷ parts) missed ranges =
    go_on (turn size part) missed ranges (collect size parts)

abbrev pub unit_prefix : Bytes
unit_prefix = codes "bytes="

-- parseRange
unfoldable pub parse_range : Bytes → ℤ → RangeResult
parse_range s size =
    if bytes_eq s []
    then ok []
    else if not (has_prefix s unit_prefix)
    then err invalid_range
    else collect size (split b',' (drop 6 s)) false []

sum_from : ℤ → List HttpRange → ℤ
sum_from size [] = size
sum_from size (r ∷ rs) = sum_from (wrap64 (size +ℤ r.length)) rs

-- sumRangesSize
unfoldable pub sum_ranges_size : List HttpRange → ℤ
unfolding sum_from
sum_ranges_size rs = sum_from (pos 0) rs
