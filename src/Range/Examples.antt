-- ===== src/Range/Examples.antt =====
-- The theorems about parseRange at concrete headers.
use ssheasy.Base.{◌≡◌, [], ◌∷◌, arith}
use ssheasy.Base.Int.{pos}
use ssheasy.Base.Text.{codes}
use ssheasy.Range.{parse_range}
use ssheasy.Range.Bounds.{ArePlaced, parse_range-Placed}
use ssheasy.Range.Reference.{from_to, from, last, header, answer, parse_range-header}

parse_range-Placed_example :
    ArePlaced (codes "bytes= 2-5 ,-3") 10 (parse_range (codes "bytes= 2-5 ,-3") (pos 10))
parse_range-Placed_example = parse_range-Placed (codes "bytes= 2-5 ,-3") 10 (omega arith)

parse_range-header_example :
    parse_range (header (from_to 2 40) (last 3 ∷ from 12 ∷ [])) (pos 10)
    ≡ answer 10 (from_to 2 40 ∷ last 3 ∷ from 12 ∷ [])
parse_range-header_example =
    parse_range-header 10 (from_to 2 40) (last 3 ∷ from 12 ∷ []) (omega arith)
      ((omega arith, omega arith), ((omega arith, omega arith), (omega arith, tt)))
