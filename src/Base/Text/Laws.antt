-- ===== src/Base/Text/Laws.antt =====
-- Laws of the text functions: what a prefix test, a cut and a trim promise.
use Prim.Native.Nat.{ℕ, ◌<◌}
use mathlib.Core.Path.{◌≡◌, refl, ap, ◌∙◌}
use mathlib.Core.Logic.{◌≢◌, inl, inr}
use mathlib.Core.Bool.{true}
use mathlib.Core.List.{List, [], ◌∷◌, ◌++◌, reverse, reverse-cons, reverse-reverse}
use mathlib.Core.Option.{some}
use native.Mathlib.Omega.{arith}
use ssheasy.Base.Tests.{◌==◌, Bool-cases, Option-cases}
use ssheasy.Base.Lists.{All, All-append}
use ssheasy.Base.Text.{Bytes, cut, split, has_prefix, trim_left, trim_back, trim_space}

-- The text has no such byte.
abbrev pub Lacks : ℕ → Bytes → Type 0
Lacks b = All (λ c. c ≢ b)

-- Cutting a text whose head lacks the separator gives the head and the rest.
pub cut-append : (b : ℕ) (s t : Bytes) → Lacks b s → cut b (s ++ b ∷ t) ≡ some (s, t)
unfolding cut
cut-append b [] t h = ground arith
cut-append b (c ∷ s) t (hc, hs) = ground (arith, cut-append b s t hs)

-- A successful cut splits the text at its first separator.
pub cut_sound : (b : ℕ) (s u v : Bytes) → cut b s ≡ some (u, v) → (s ≡ u ++ b ∷ v) × Lacks b u
unfolding cut
cut_sound b [] u v h = cc
cut_sound b (c ∷ s) u v h = elim (Bool-cases (c == b)) [
  | inl hit ↦ ground arith
  | inr miss ↦ elim (Option-cases (cut b s)) [
    | inl e ↦ cc (rw (miss, e) at h)
    | inr ((u', v'), e) ↦ ground (arith, cut_sound b s u' v' e)
  ]
]

pub has_prefix-append : (p s : Bytes) → has_prefix (p ++ s) p ≡ true
unfolding has_prefix
has_prefix-append [] s = refl
has_prefix-append (c ∷ p) s = ground (arith, has_prefix-append p s)

-- Printable ASCII: no byte of white space, and no byte above 0x7e.
abbrev pub IsPlain : ℕ → Type 0
IsPlain c = (32 < c) × (c < 127)

trim_left-plain : (s : Bytes) → All IsPlain s → trim_left s ≡ s
unfolding trim_left
trim_left-plain [] h = refl
trim_left-plain (a ∷ []) h = ground arith
trim_left-plain (a ∷ b ∷ []) h = ground arith
trim_left-plain (a ∷ b ∷ c ∷ s) h = ground arith

trim_back-plain : (s : Bytes) → All IsPlain s → trim_back s ≡ s
unfolding trim_back
trim_back-plain [] h = refl
trim_back-plain (a ∷ []) h = ground arith
trim_back-plain (a ∷ b ∷ []) h = ground arith
trim_back-plain (a ∷ b ∷ c ∷ s) h = ground arith

pub All-reverse {ℓ} : (P : ℕ → Type ℓ) (s : Bytes) → All P s → All P (reverse s)
All-reverse P [] h = tt
All-reverse P (c ∷ s) (hc, hs) =
    rw (reverse-cons c s) (All-append P (reverse s) (c ∷ []) (All-reverse P s hs) (hc, tt))

-- Trimming changes no text of printable characters.
pub trim_space-plain : (s : Bytes) → All IsPlain s → trim_space s ≡ s
unfolding trim_space
trim_space-plain s h =
    rw (trim_left-plain s h, trim_back-plain (reverse s) (All-reverse IsPlain s h))
      (reverse-reverse s)

-- strings.Join with a separator of one byte
pub join : ℕ → Bytes → List Bytes → Bytes
join b s [] = s
join b s (t ∷ ts) = s ++ b ∷ join b t ts

pub split-Lacks : (b : ℕ) (s : Bytes) → Lacks b s → split b s ≡ s ∷ []
unfolding split
split-Lacks b [] h = refl
split-Lacks b (c ∷ s) (hc, hs) = ground (arith, split-Lacks b s hs)

pub split-append : (b : ℕ) (s t : Bytes) → Lacks b s → split b (s ++ b ∷ t) ≡ s ∷ split b t
unfolding split
split-append b [] t h = ground arith
split-append b (c ∷ s) t (hc, hs) = ground (arith, split-append b s t hs)

-- Splitting undoes joining.
pub split-join :
    (b : ℕ) (s : Bytes) (ts : List Bytes)
    → Lacks b s
    → All (Lacks b) ts
    → split b (join b s ts) ≡ s ∷ ts
unfolding join
split-join b s [] h hs = split-Lacks b s h
split-join b s (t ∷ ts) h (ht, hs) =
    split-append b s (join b t ts) h ∙ ap (λ r. s ∷ r) (split-join b t ts ht hs)
