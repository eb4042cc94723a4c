-- ===== src/Base/Text.antt =====
-- Go strings as lists of bytes, with the functions of package strings that the program calls.
pub mod Laws
use Prim.Native.Nat.{ℕ, zero, suc, ◌+◌, ◌-◌, compare}
use Prim.Native.Char.{code}
use Prim.Native.String.{String}
use mathlib.Core.Path.{◌≡◌, refl}
use mathlib.Core.Logic.{◌↔◌}
use mathlib.Core.Bool.{Bool, true, false, ◌&&◌, ◌||◌}
use mathlib.Core.List.{List, [], ◌∷◌, ◌++◌, map, reverse}
use mathlib.Core.Option.{Option, none, some}
use native.Mathlib.Omega.{arith}
use ssheasy.Base.Tests.{ltb, leb, ◌==◌, if◌then◌else◌}
use ssheasy.Base.Lists.{length, take, drop}

abbrev pub Bytes : Type 0
Bytes = List ℕ

-- The code points of a literal; these are its bytes, since every literal here is ASCII.
abbrev pub codes : String → Bytes
codes String.[] = []
codes (String.◌∷◌ c s) = code c ∷ codes s

-- a == b on strings
unfoldable pub bytes_eq : Bytes → Bytes → Bool
bytes_eq [] [] = true
bytes_eq [] (d ∷ t) = false
bytes_eq (c ∷ s) [] = false
bytes_eq (c ∷ s) (d ∷ t) = c == d && bytes_eq s t

pub bytes_eq_iff : (s t : Bytes) → (bytes_eq s t ≡ true) ↔ (s ≡ t)
unfolding bytes_eq
bytes_eq_iff [] [] = ground arith
bytes_eq_iff [] (d ∷ t) = ground arith
bytes_eq_iff (c ∷ s) [] = ground arith
bytes_eq_iff (c ∷ s) (d ∷ t) = ground (arith, bytes_eq_iff s t)

pub bytes_eq_refl : (s : Bytes) → bytes_eq s s ≡ true
bytes_eq_refl s = (bytes_eq_iff s s).1 refl

-- strings.HasPrefix, strings.HasSuffix, strings.Contains
unfoldable pub has_prefix : Bytes → Bytes → Bool
has_prefix s [] = true
has_prefix [] (p ∷ ps) = false
has_prefix (c ∷ s) (p ∷ ps) = c == p && has_prefix s ps

unfoldable pub has_suffix : Bytes → Bytes → Bool
unfolding has_prefix
has_suffix s p = has_prefix (reverse s) (reverse p)

unfoldable pub contains : Bytes → Bytes → Bool
unfolding has_prefix
contains [] p = has_prefix [] p
contains (c ∷ s) p = has_prefix (c ∷ s) p || contains s p

-- strings.TrimPrefix, strings.TrimSuffix
unfoldable pub trim_prefix : Bytes → Bytes → Bytes
unfolding has_prefix
trim_prefix s p = if has_prefix s p then drop (length p) s else s

unfoldable pub trim_suffix : Bytes → Bytes → Bytes
unfolding has_suffix
trim_suffix s p = if has_suffix s p then take (length s - length p) s else s

-- strings.Cut(s, sep) for a separator of one byte; `none` is the result with found == false.
unfoldable pub cut : ℕ → Bytes → Option (Bytes × Bytes)
cut b [] = none
cut b (c ∷ s) =
    if c == b then some ([], s) else elim (cut b s) [ none ↦ none | some (u, v) ↦ some (c ∷ u, v) ]

-- A byte in front of the first part.
abbrev pub cons_head : ℕ → List Bytes → List Bytes
cons_head c [] = (c ∷ []) ∷ []
cons_head c (u ∷ us) = (c ∷ u) ∷ us

-- strings.Split(s, sep) for a separator of one byte; the result is never empty.
unfoldable pub split : ℕ → Bytes → List Bytes
split b [] = [] ∷ []
split b (c ∷ s) = let rest = split b s in if c == b then [] ∷ rest else cons_head c rest

-- strings.ToLower and strings.ToUpper on ASCII letters.
abbrev lower : ℕ → ℕ
lower c = if leb b'A' c && leb c b'Z' then c + 32 else c

abbrev upper : ℕ → ℕ
upper c = if leb b'a' c && leb c b'z' then c - 32 else c

unfoldable pub to_lower : Bytes → Bytes
to_lower = map lower

unfoldable pub to_upper : Bytes → Bytes
to_upper = map upper

-- unicode.IsSpace in UTF-8: one, two or three bytes.
abbrev space1 : ℕ → Bool
space1 a = a == 32 || leb 9 a && leb a 13

abbrev space2 : ℕ → ℕ → Bool
space2 a b = a == 0xc2 && (b == 0x85 || b == 0xa0)

abbrev space3 : ℕ → ℕ → ℕ → Bool
space3 a b c =
    a == 0xe1 && b == 0x9a && c == 0x80
    || a == 0xe2 && b == 0x80 && (leb 0x80 c && leb c 0x8a || c == 0xa8 || c == 0xa9 || c == 0xaf)
    || a == 0xe2 && b == 0x81 && c == 0x9f
    || a == 0xe3 && b == 0x80 && c == 0x80

trim_left : Bytes → Bytes
trim_left [] = []
trim_left (a ∷ []) = if space1 a then [] else a ∷ []
trim_left (a ∷ b ∷ []) =
    let one = trim_left (b ∷ []) in if space1 a then one else if space2 a b then [] else a ∷ b ∷ []
trim_left (a ∷ b ∷ c ∷ s) =
    let one = trim_left (b ∷ c ∷ s) in
    let two = trim_left (c ∷ s) in
    let three = trim_left s in
    if space1 a
    then one
    else if space2 a b
    then two
    else if space3 a b c
    then three
    else a ∷ b ∷ c ∷ s

-- The same from the right end, on the reversed text.
trim_back : Bytes → Bytes
trim_back [] = []
trim_back (a ∷ []) = if space1 a then [] else a ∷ []
trim_back (a ∷ b ∷ []) =
    let one = trim_back (b ∷ []) in if space1 a then one else if space2 b a then [] else a ∷ b ∷ []
trim_back (a ∷ b ∷ c ∷ s) =
    let one = trim_back (b ∷ c ∷ s) in
    let two = trim_back (c ∷ s) in
    let three = trim_back s in
    if space1 a
    then one
    else if space2 b a
    then two
    else if space3 c b a
    then three
    else a ∷ b ∷ c ∷ s

-- strings.TrimSpace
unfoldable pub trim_space : Bytes → Bytes
unfolding trim_left trim_back
trim_space s = reverse (trim_back (reverse (trim_left s)))

-- textproto.TrimString: space, tab, newline and carriage return only.
abbrev is_ascii_space : ℕ → Bool
is_ascii_space c = c == 32 || c == 9 || c == 10 || c == 13

unfoldable pub drop_ascii_space : Bytes → Bytes
drop_ascii_space [] = []
drop_ascii_space (c ∷ s) = if is_ascii_space c then drop_ascii_space s else c ∷ s

unfoldable pub trim_string : Bytes → Bytes
unfolding drop_ascii_space
trim_string s = reverse (drop_ascii_space (reverse (drop_ascii_space s)))
