-- ===== src/Base/FilePath/Laws.antt =====
-- A rooted path is cleaned to plain elements, so that nothing joined from it leads upwards.
use Prim.Native.Nat.{ℕ}
use mathlib.Core.Path.{◌≡◌, refl, sym}
use mathlib.Core.Logic.{◌≢◌, inl, inr}
use mathlib.Core.List.{
  List, [], ◌∷◌, ◌++◌, reverse, reverse-cons, reverse-append, reverse-reverse, append_assoc,
  append-nil,
}
use mathlib.Core.Bool.{Bool, true, ◌||◌}
use native.Mathlib.Omega.{arith}
use ssheasy.Base.Tests.{◌==◌, Bool-cases}
use ssheasy.Base.Lists.{All, All-append}
use ssheasy.Base.Text.{Bytes, bytes_eq, bytes_eq_iff, cons_head, split}
use ssheasy.Base.Text.Laws.{Lacks, split-append, split-Lacks}
use ssheasy.Base.FilePath.{
  dot, dot_dot, pop_or_push, step, steps, join_elements, elements, clean, join_path,
}

-- An element that names an entry of its directory.
pub record IsEntry (e : Bytes) : Type 0 where
  pub some_text : e ≢ []
  pub not_here : e ≢ dot
  pub not_up : e ≢ dot_dot
  pub no_slash : Lacks b'/' e

cons_head-Lacks :
    (b c : ℕ) (us : List Bytes) → c ≢ b → All (Lacks b) us → All (Lacks b) (cons_head c us)
cons_head-Lacks b c [] h l = ((h, tt), tt)
cons_head-Lacks b c (u ∷ us) h (lu, l) = ((h, lu), l)

split-All-Lacks : (b : ℕ) (s : Bytes) → All (Lacks b) (split b s)
unfolding split
split-All-Lacks b [] = (tt, tt)
split-All-Lacks b (c ∷ s) = elim (Bool-cases (c == b)) [
  | inl e ↦ rw e (tt, split-All-Lacks b s)
  | inr e ↦ rw e (cons_head-Lacks b c (split b s) (ground arith) (split-All-Lacks b s))
]

pop-IsEntry : (stack : List Bytes) → All IsEntry stack → All IsEntry (pop_or_push true stack)
unfolding pop_or_push
pop-IsEntry [] h = tt
pop-IsEntry (e ∷ es) (he, h) = elim (Bool-cases (bytes_eq e dot_dot)) [
  | inl q ↦ absurd (he.not_up ((bytes_eq_iff e dot_dot).0 q))
  | inr q ↦ rw q h
]

step-IsEntry :
    (stack : List Bytes) (e : Bytes)
    → Lacks b'/' e
    → All IsEntry stack
    → All IsEntry (step true stack e)
unfolding step
step-IsEntry stack e l h = elim (Bool-cases (bytes_eq e [] || bytes_eq e dot)) [
  | inl q ↦ rw q h
  | inr q ↦ elim (Bool-cases (bytes_eq e dot_dot)) [
    | inl r ↦ rw (q, r) (pop-IsEntry stack h)
    | inr r ↦
        rw (q, r)
          (
            record {
              some_text = ground (arith, bytes_eq_iff e []);
              not_here = ground (arith, bytes_eq_iff e dot);
              not_up = ground (arith, bytes_eq_iff e dot_dot);
              no_slash = l;
            },
            h,
          )
  ]
]

steps-IsEntry :
    (stack es : List Bytes)
    → All (Lacks b'/') es
    → All IsEntry stack
    → All IsEntry (steps true stack es)
unfolding steps
steps-IsEntry stack [] l h = h
steps-IsEntry stack (e ∷ es) (le, l) h =
    steps-IsEntry (step true stack e) es l (step-IsEntry stack e le h)

step-entry :
    (rooted : Bool) (stack : List Bytes) (e : Bytes) → IsEntry e → step rooted stack e ≡ e ∷ stack
unfolding step
step-entry rooted stack e h = ground (
  arith,
  h.some_text,
  h.not_here,
  h.not_up,
  bytes_eq_iff e [],
  bytes_eq_iff e dot,
  bytes_eq_iff e dot_dot,
)

-- Entries are pushed one by one.
steps-entries :
    (rooted : Bool) (stack es : List Bytes)
    → All IsEntry es
    → steps rooted stack es ≡ reverse es ++ stack
unfolding steps
steps-entries rooted stack [] h = refl
steps-entries rooted stack (e ∷ es) (he, h) =
    rw (step-entry rooted stack e he, steps-entries rooted (e ∷ stack) es h, reverse-cons e es)
      (sym (append_assoc (reverse es) (e ∷ []) stack))

steps-append :
    (rooted : Bool) (stack es fs : List Bytes)
    → steps rooted stack (es ++ fs) ≡ steps rooted (steps rooted stack es) fs
unfolding steps
steps-append rooted stack [] fs = refl
steps-append rooted stack (e ∷ es) fs = steps-append rooted (step rooted stack e) es fs

cons_head-append :
    (c : ℕ) (us vs : List Bytes) → us ≢ [] → cons_head c (us ++ vs) ≡ cons_head c us ++ vs
cons_head-append c [] vs h = absurd (h refl)
cons_head-append c (u ∷ us) vs h = refl

cons_head-ne-nil : (c : ℕ) (us : List Bytes) → cons_head c us ≢ []
cons_head-ne-nil c [] h = cc
cons_head-ne-nil c (u ∷ us) h = cc

split-ne-nil : (b : ℕ) (s : Bytes) → split b s ≢ []
unfolding split
split-ne-nil b [] h = cc
split-ne-nil b (c ∷ s) h = elim (Bool-cases (c == b)) [
  | inl e ↦ cc (rw (e, split) at h)
  | inr e ↦ cons_head-ne-nil c (split b s) (rw (e, split) at h)
]

split-any-append : (b : ℕ) (s t : Bytes) → split b (s ++ b ∷ t) ≡ split b s ++ split b t
unfolding split
split-any-append b [] t = ground arith
split-any-append b (c ∷ s) t = elim (Bool-cases (c == b)) [
  | inl e ↦ rw (e, split-any-append b s t)
  | inr e ↦
      rw (e, split-any-append b s t) (cons_head-append c (split b s) (split b t) (split-ne-nil b s))
]

reverse-IsEntry : (es : List Bytes) → All IsEntry es → All IsEntry (reverse es)
reverse-IsEntry [] h = tt
reverse-IsEntry (e ∷ es) (he, h) =
    rw (reverse-cons e es)
      (All-append IsEntry (reverse es) (e ∷ []) (reverse-IsEntry es h) (he, tt))

-- The elements of a rooted path are entries.
elements-IsEntry : (s : Bytes) → All IsEntry (elements (b'/' ∷ s))
unfolding elements
elements-IsEntry s =
    reverse-IsEntry _
      (steps-IsEntry [] (split b'/' (b'/' ∷ s)) (split-All-Lacks b'/' (b'/' ∷ s)) tt)

steps-cons :
    (rooted : Bool) (stack es : List Bytes) (e : Bytes)
    → steps rooted stack (e ∷ es) ≡ steps rooted (step rooted stack e) es
unfolding steps
steps-cons rooted stack es e = refl

-- The elements of joined entries are those entries; those of the empty text are none.
steps-split-join :
    (rooted : Bool) (stack es : List Bytes)
    → All IsEntry es
    → steps rooted stack (split b'/' (join_elements es)) ≡ reverse es ++ stack
unfolding join_elements
steps-split-join rooted stack [] h = unfold split steps step bytes_eq in refl
steps-split-join rooted stack (e ∷ []) (he, h) =
    rw (split-Lacks b'/' e he.no_slash) (steps-entries rooted stack (e ∷ []) (he, h))
steps-split-join rooted stack (e ∷ f ∷ es) (he, h) =
    rw
      (
        split-append b'/' e (join_elements (f ∷ es)) he.no_slash,
        steps-cons rooted stack (split b'/' (join_elements (f ∷ es))) e,
        step-entry rooted stack e he,
        steps-split-join rooted (e ∷ stack) (f ∷ es) h,
        reverse-cons e (f ∷ es),
      )
      (sym (append_assoc (reverse (f ∷ es)) (e ∷ []) stack))

split-slash : (s : Bytes) → split b'/' (b'/' ∷ s) ≡ [] ∷ split b'/' s
unfolding split
split-slash s = refl

step-nil : (rooted : Bool) (stack : List Bytes) → step rooted stack [] ≡ stack
unfolding step bytes_eq
step-nil rooted stack = refl

elements-below :
    (c : ℕ) (dir : Bytes) (es : List Bytes)
    → All IsEntry es
    → elements (c ∷ dir ++ b'/' ∷ b'/' ∷ join_elements es) ≡ elements (c ∷ dir) ++ es
unfolding elements
elements-below c dir es h = rw (
  split-any-append b'/' (c ∷ dir) (b'/' ∷ join_elements es),
  steps-append (c == b'/') [] (split b'/' (c ∷ dir)) (split b'/' (b'/' ∷ join_elements es)),
  split-slash (join_elements es),
  steps-cons (c == b'/') (steps (c == b'/') [] (split b'/' (c ∷ dir)))
      (split b'/' (join_elements es)) [],
  step-nil (c == b'/') (steps (c == b'/') [] (split b'/' (c ∷ dir))),
  steps-split-join (c == b'/') (steps (c == b'/') [] (split b'/' (c ∷ dir))) es h,
  reverse-append (reverse es) (steps (c == b'/') [] (split b'/' (c ∷ dir))),
  reverse-reverse es,
)

-- Whatever a name holds, joining the cleaned rooted name to a directory adds entries to the elements
-- of that directory, and takes none away.
pub elements-join_clean :
    (c : ℕ) (dir name : Bytes)
    → (es : List Bytes) × All IsEntry es
      × (join_path (c ∷ dir) (clean (b'/' ∷ name)) ≡ clean (c ∷ dir ++ b'/' ∷ clean (b'/' ∷ name)))
      × (elements (c ∷ dir ++ b'/' ∷ clean (b'/' ∷ name)) ≡ elements (c ∷ dir) ++ es)
unfolding join_path clean
elements-join_clean c dir name = (
  elements (b'/' ∷ name),
  elements-IsEntry name,
  ground (
    arith,
    bytes_eq_iff (c ∷ dir) [],
    bytes_eq_iff (b'/' ∷ join_elements (elements (b'/' ∷ name))) [],
  ),
  elements-below c dir (elements (b'/' ∷ name)) (elements-IsEntry name),
)

elements-entries :
    (es : List Bytes) (name : Bytes)
    → All IsEntry es
    → IsEntry name
    → elements (b'/' ∷ join_elements es ++ b'/' ∷ name) ≡ es ++ name ∷ []
unfolding elements
elements-entries es name h hn =
    rw
      (
        split-any-append b'/' (b'/' ∷ join_elements es) name,
        steps-append true [] (split b'/' (b'/' ∷ join_elements es)) (split b'/' name),
        split-slash (join_elements es),
        steps-cons true [] (split b'/' (join_elements es)) [],
        step-nil true [],
        steps-split-join true [] es h,
        append-nil (reverse es),
        split-Lacks b'/' name hn.no_slash,
        steps-entries true (reverse es) (name ∷ []) (hn, tt),
        reverse-append (reverse (name ∷ [])) (reverse es),
        reverse-reverse (name ∷ []),
        reverse-reverse es,
      )
      refl

-- An entry that is joined to a rooted path of entries comes behind them.
pub join_path-entries :
    (es : List Bytes) (name : Bytes)
    → All IsEntry es
    → IsEntry name
    → join_path (b'/' ∷ join_elements es) name ≡ b'/' ∷ join_elements (es ++ name ∷ [])
unfolding join_path clean
join_path-entries es name h hn =
    rw (← elements-entries es name h hn) (
      ground (arith, hn.some_text, bytes_eq_iff (b'/' ∷ join_elements es) [], bytes_eq_iff name []))
