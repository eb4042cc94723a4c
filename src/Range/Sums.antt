-- ===== src/Range/Sums.antt =====
-- Sums of the lengths of ranges that lie in a content, where no sum leaves int64.
use ssheasy.Base.{ℕ, ◌+◌, ◌<◌, ◌^◌, ◌≡◌, ◌∙◌, ap, List, [], ◌∷◌, arith, All}
use ssheasy.Base.Int.{pos, ◌+ℤ◌, wrap64, wrap64_id}
use ssheasy.Range.Bounds.{IsInside}
use ssheasy.Range.{HttpRange, sum_from, sum_ranges_size}

abbrev pub total : (size : ℕ) (rs : List HttpRange) → All (IsInside size) rs → ℕ
total size [] h = 0
total size (r ∷ rs) (w, h) = w.count + total size rs h

pub pos_add : (m n : ℕ) → m + n < 2 ^ 63 → wrap64 (pos m +ℤ pos n) ≡ pos (m + n)
unfolding ◌+ℤ◌
pos_add m n h =
    let e : pos m +ℤ pos n ≡ pos (m + n) = ground arith in
    rw e (wrap64_id (pos (m + n)) (omega arith))

sum_from-total :
    (size m : ℕ) (rs : List HttpRange) (h : All (IsInside size) rs)
    → m + total size rs h < 2 ^ 63
    → sum_from (pos m) rs ≡ pos (m + total size rs h)
unfolding sum_from
sum_from-total size m [] h l = ap pos (omega arith)
sum_from-total size m (r ∷ rs) (w, h) l =
    let e : m + (w.count + total size rs h) ≡ m + w.count + total size rs h = omega arith in
    rw (w.long, pos_add m w.count (omega arith), e)
      (sum_from-total size (m + w.count) rs h (omega arith))

pub sum_ranges_size-total :
    (size : ℕ) (rs : List HttpRange) (h : All (IsInside size) rs)
    → total size rs h < 2 ^ 63
    → sum_ranges_size rs ≡ pos (total size rs h)
unfolding sum_ranges_size
sum_ranges_size-total size rs h l =
    let e : 0 + total size rs h ≡ total size rs h = omega arith in
    sum_from-total size 0 rs h (omega arith) ∙ ap pos e
