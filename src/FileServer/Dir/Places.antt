-- ===== src/FileServer/Dir/Places.antt =====
-- Which files Dir.Open opens, and what its errors say.
use ssheasy.Base.{false, ◌≡◌, refl, ap, ◌∙◌, ◌⊎◌, inl, inr, List, [], ◌∷◌, ◌++◌, All}
use ssheasy.Base.Text.{Bytes, bytes_eq, split}
use ssheasy.Base.FilePath.{dot, elements, clean, is_rooted, steps, step}
use ssheasy.Base.FilePath.Laws.{IsEntry, elements-join_clean}
use ssheasy.FileServer.Dir.{OsError, not_exist, Try, fails, gives, Info, File, Os, full_name}

-- A path that is the cleaned form of one whose elements are those of the directory and entries below,
-- and that starts at the system's root exactly if the directory does.
pub record IsBelow (dir path : Bytes) : Type 0 where
  pub joined : Bytes
  pub entries : List Bytes
  pub plain : All IsEntry entries
  pub cleaned : path ≡ clean joined
  pub rooted : is_rooted joined ≡ is_rooted dir
  pub below : elements joined ≡ elements dir ++ entries

-- The current directory has no elements, and no more has the empty text.
elements-dot : elements dot ≡ elements []
unfolding elements steps step split bytes_eq
elements-dot = refl

pub full_name-IsBelow : (dir name : Bytes) → IsBelow dir (full_name dir name)
full_name-IsBelow [] name =
    let (es, plain, cleaned, below) = elements-join_clean b'.' [] name in
    record {
      joined = dot ++ b'/' ∷ clean (b'/' ∷ name);
      entries = es;
      plain = plain;
      cleaned = cleaned;
      rooted = refl;
      below = below ∙ ap (λ fs. fs ++ es) elements-dot;
    }
full_name-IsBelow (c ∷ dir) name =
    let (es, plain, cleaned, below) = elements-join_clean c dir name in
    record {
      joined = c ∷ dir ++ b'/' ∷ clean (b'/' ∷ name);
      entries = es;
      plain = plain;
      cleaned = cleaned;
      rooted = refl;
      below = below;
    }

-- Something on the way to `path` is there and is no directory.
pub record IsBlocked (os : Os) : Type 0 where
  pub place : Bytes
  pub info : Info
  pub found : os.stat place ≡ gives info
  pub plain_file : info.is_dir ≡ false

pub Try-cases :
    {A : Type 0} → (t : Try A) → ((e : OsError) × (t ≡ fails e)) ⊎ ((x : A) × (t ≡ gives x))
Try-cases (fails e) = inl (e, refl)
Try-cases (gives x) = inr (x, refl)

-- What Dir.Open did: the one path that it opened, and how the answer comes from the system's.
pub record OpensBelow (os : Os) (dir : Bytes) (answer : Try File) : Type 0 where
  pub path : Bytes
  pub place : IsBelow dir path
  pub outcome :
      (answer ≡ os.open_file path)
      ⊎ (answer ≡ fails not_exist) × (e : OsError) × (os.open_file path ≡ fails e) × IsBlocked os
