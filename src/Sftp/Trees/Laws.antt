-- ===== src/Sftp/Trees/Laws.antt =====
-- What a recursive removal or a recursive change of rights may touch.
use ssheasy.Base.{
  ℕ, zero, suc, Bool, true, false, ◌≡◌, refl, List, [], ◌∷◌, Option, none, some, Bool-cases, inl,
  inr, All,
}
use ssheasy.Base.Text.{Bytes}
use ssheasy.Base.FilePath.{join_path}
use ssheasy.Base.FilePath.Laws.{IsEntry}
use ssheasy.Sftp.{FileInfo, Remote, Outcome, done, error, out_of_fuel, outcome, and_then, each}
use ssheasy.Sftp.Trees.{
  children, rec_delete, delete_at, delete_entries, chmod, chmod_below, chmod_entries,
}

-- The path itself, and every path that filepath.Join makes below it from names of entries, which are
-- neither empty nor `.` nor `..` and hold no slash.
pub data Below (f : Bytes) : Bytes → Type 0 where
  here : Below f f
  inside : (d name : Bytes) → IsEntry name → Below f d → Below f (join_path d name)

children-Below :
    (f d : Bytes) (files : List FileInfo)
    → All (λ i. IsEntry i.name) files
    → Below f d
    → All (Below f) (children d files)
children-Below f d [] n b = tt
children-Below f d (i ∷ is) (n, ns) b = (inside d i.name n b, children-Below f d is ns b)

-- The server lists a directory by the names of its entries.
abbrev pub ListsEntries {ℓ} : {S : Type ℓ} → Remote S → Type ℓ
ListsEntries {S = S} r =
    (p : Bytes) (s : S) (files : List FileInfo)
    → r.read_dir p s ≡ some files
    → All (λ i. IsEntry i.name) files

module _ {ℓ κ} {S : Type ℓ} (P : S → Type κ) where
  then_keeps :
      (o : Outcome × S) (k : S → Outcome × S)
      → P o.1
      → ((s : S) → P s → P (k s).1)
      → P (and_then o k).1
  unfolding and_then
  then_keeps (done, t) k h c = c t h
  then_keeps (error, t) k h c = h
  then_keeps (out_of_fuel, t) k h c = h

  -- What each step keeps, the loop keeps.
  each_keeps :
      (Q : Bytes → Type 0) (step : Bytes → S → Outcome × S)
      → ((p : Bytes) (s : S) → Q p → P s → P (step p s).1)
      → (fs : List Bytes) (s : S) → All Q fs
      → P s
      → P (each step fs s).1
  unfolding each
  each_keeps Q step k [] s a h = h
  each_keeps Q step k (f ∷ fs) s (q, qs) h =
      then_keeps (step f s) _ (k f s q h) (λ t. each_keeps Q step k fs t qs)

  outcome_keeps : (o : Bool × S) → P o.1 → P (outcome o).1
  outcome_keeps (true, s) h = h
  outcome_keeps (false, s) h = h

  module _ (r : Remote S) (names : ListsEntries r) (f : Bytes) where
    module _ (removed : (p : Bytes) (s : S) → Below f p → P s → P (r.remove p s).1)
        (emptied : (p : Bytes) (s : S) → Below f p → P s → P (r.remove_directory p s).1) where
      delete_at_keeps :
          (sub : Bytes → S → Outcome × S)
          → ((p : Bytes) (s : S) → Below f p → P s → P (sub p s).1)
          → (p : Bytes) (i : Option FileInfo) (s : S) → Below f p
          → P s
          → P (delete_at r sub p i s).1
      delete_at_keeps sub k p none s b h = h
      delete_at_keeps sub k p (some i) s b h = elim (Bool-cases i.is_dir) [
        | inr e ↦ rw (e) (outcome_keeps (r.remove p s) (removed p s b h))
        | inl e ↦ rw (e) (entries (r.read_dir p s) refl)
      ]
        where
          entries :
              (o : Option (List FileInfo)) → r.read_dir p s ≡ o → P (delete_entries r sub p o s).1
          entries none e = h
          entries (some files) e =
              then_keeps _ _
                (each_keeps (Below f) sub k (children p files) s
                  (children-Below f p files (names p s files e) b) h)
                (λ t ht. outcome_keeps (r.remove_directory p t) (emptied p t b ht))

      rec_delete_keeps : (n : ℕ) (p : Bytes) (s : S) → Below f p → P s → P (rec_delete r n p s).1
      unfolding rec_delete
      rec_delete_keeps zero p s b h = h
      rec_delete_keeps (suc n) p s b h =
          delete_at_keeps (rec_delete r n) (rec_delete_keeps n) p (r.lstat p s) s b h

      -- On a server whose directories list names of entries (not `.` or `..`, and without a slash),
      -- recDelete of a path touches nothing else: whatever the removals of that path, and of paths that
      -- are joined below it from such names, keep true of the server, recDelete keeps true, errors
      -- included.
      pub rec_delete-Below : (n : ℕ) (s : S) → P s → P (rec_delete r n f s).1
      rec_delete-Below n s h = rec_delete_keeps n f s here h

    module _ (perm : ℕ)
        (changed : (p : Bytes) (s : S) → Below f p → P s → P (r.chmod p perm s).1) where
      chmod_below_keeps :
          (sub : Bytes → S → Outcome × S)
          → ((p : Bytes) (s : S) → Below f p → P s → P (sub p s).1)
          → (p : Bytes) (i : Option FileInfo) (s : S) → Below f p
          → P s
          → P (chmod_below r sub p i s).1
      chmod_below_keeps sub k p none s b h = h
      chmod_below_keeps sub k p (some i) s b h = elim (Bool-cases i.is_dir) [
        | inr e ↦ rw (e) h
        | inl e ↦ rw (e) (entries (r.read_dir p s) refl)
      ]
        where
          entries :
              (o : Option (List FileInfo)) → r.read_dir p s ≡ o → P (chmod_entries r sub p o s).1
          entries none e = h
          entries (some files) e =
              each_keeps (Below f) sub k (children p files) s
                (children-Below f p files (names p s files e) b) h

      chmod_keeps :
          (n : ℕ) (recursive : Bool) (p : Bytes) (s : S)
          → Below f p
          → P s
          → P (chmod r n perm recursive p s).1
      unfolding chmod
      chmod_keeps zero recursive p s b h = h
      chmod_keeps (suc n) false p s b h =
          then_keeps _ _ (outcome_keeps (r.chmod p perm s) (changed p s b h)) (λ t ht. ht)
      chmod_keeps (suc n) true p s b h =
          then_keeps _ _ (outcome_keeps (r.chmod p perm s) (changed p s b h)) (λ t ht.
            chmod_below_keeps (chmod r n perm true) (chmod_keeps n true) p (r.lstat p t) t b ht)

      -- On a server whose directories list names of entries (not `.` or `..`, and without a slash), chmod
      -- of a path changes the rights of that path and of paths that are joined below it from such names,
      -- and only to the given rights: whatever these changes keep true of the server, chmod keeps true,
      -- errors included.
      pub chmod-Below :
          (n : ℕ) (recursive : Bool) (s : S) → P s → P (chmod r n perm recursive f s).1
      chmod-Below n recursive s h = chmod_keeps n recursive f s here h
