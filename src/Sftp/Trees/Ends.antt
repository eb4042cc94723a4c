-- ===== src/Sftp/Trees/Ends.antt =====
-- On a finite tree, recDelete and chmod end.
use ssheasy.Base.{
  ℕ, zero, suc, ◌<◌, Bool, true, false, ◌≡◌, ◌≢◌, refl, List, [], ◌∷◌, Option, none, some, arith,
  Bool-cases, inl, inr, All,
}
use ssheasy.Base.Text.{Bytes}
use ssheasy.Sftp.{FileInfo, Remote, Outcome, done, error, out_of_fuel, outcome, and_then, each}
use ssheasy.Sftp.Trees.{
  children, rec_delete, delete_at, delete_entries, chmod, chmod_below, chmod_entries,
}

outcome_ends {ℓ} : {S : Type ℓ} (o : Bool × S) → (outcome o).0 ≢ out_of_fuel
outcome_ends (true, s) = λ e. cc
outcome_ends (false, s) = λ e. cc

then_ends {ℓ} :
    {S : Type ℓ} (o : Outcome × S) (k : S → Outcome × S)
    → o.0 ≢ out_of_fuel
    → ((s : S) → (k s).0 ≢ out_of_fuel)
    → (and_then o k).0 ≢ out_of_fuel
unfolding and_then
then_ends (done, t) k h c = c t
then_ends (error, t) k h c = λ e. cc
then_ends (out_of_fuel, t) k h c = λ e. h refl

-- What no step runs out of, the loop does not run out of.
each_ends {ℓ} :
    {S : Type ℓ} (step : Bytes → S → Outcome × S) (Q : Bytes → Type 0)
    → ((p : Bytes) (s : S) → Q p → (step p s).0 ≢ out_of_fuel)
    → (fs : List Bytes) (s : S) → All Q fs
    → (each step fs s).0 ≢ out_of_fuel
unfolding each
each_ends step Q k [] s a = λ e. cc
each_ends step Q k (f ∷ fs) s (q, qs) =
    then_ends (step f s) _ (k f s q) (λ t. each_ends step Q k fs t qs)

module _ {ℓ} {S : Type ℓ} (r : Remote S) (height : Bytes → ℕ) where
  -- The tree of the server is finite: what a directory lists lies lower than the directory.
  abbrev pub IsFinite : Type ℓ
  IsFinite =
      (p : Bytes) (s : S) (files : List FileInfo)
      → r.read_dir p s ≡ some files
      → All (λ q. height q < height p) (children p files)

  delete_at_ends :
      (n : ℕ) (p : Bytes)
      → IsFinite
      → ((q : Bytes) (s : S) → height q < n → (rec_delete r n q s).0 ≢ out_of_fuel)
      → height p < suc n
      → (i : Option FileInfo) (s : S) → (delete_at r (rec_delete r n) p i s).0 ≢ out_of_fuel
  delete_at_ends n p fin k l none s = λ e. cc
  delete_at_ends n p fin k l (some i) s = elim (Bool-cases i.is_dir) [
    | inr e ↦ rw (e) (outcome_ends (r.remove p s))
    | inl e ↦ rw (e) (entries (r.read_dir p s) refl)
  ]
    where
      entries :
          (o : Option (List FileInfo))
          → r.read_dir p s ≡ o
          → (delete_entries r (rec_delete r n) p o s).0 ≢ out_of_fuel
      entries none e = λ e'. cc
      entries (some files) e =
          then_ends _ _
            (each_ends (rec_delete r n) (λ q. height q < height p) (λ q t lq. k q t (omega arith))
              (children p files) s (fin p s files e))
            (λ t. outcome_ends (r.remove_directory p t))

  -- On a finite tree, recDelete ends: it needs no more calls in depth than the height of its path.
  pub rec_delete-ends :
      IsFinite → (n : ℕ) (p : Bytes) (s : S) → height p < n → (rec_delete r n p s).0 ≢ out_of_fuel
  unfolding rec_delete
  rec_delete-ends fin zero p s l = absurd (omega arith)
  rec_delete-ends fin (suc n) p s l =
      delete_at_ends n p fin (rec_delete-ends fin n) l (r.lstat p s) s

  chmod_below-ends :
      (n perm : ℕ) (p : Bytes)
      → IsFinite
      → ((q : Bytes) (s : S) → height q < n → (chmod r n perm true q s).0 ≢ out_of_fuel)
      → height p < suc n
      → (i : Option FileInfo) (s : S) → (chmod_below r (chmod r n perm true) p i s).0 ≢ out_of_fuel
  chmod_below-ends n perm p fin k l none s = λ e. cc
  chmod_below-ends n perm p fin k l (some i) s = elim (Bool-cases i.is_dir) [
    | inr e ↦ rw (e) (λ e'. cc)
    | inl e ↦ rw (e) (entries (r.read_dir p s) refl)
  ]
    where
      entries :
          (o : Option (List FileInfo))
          → r.read_dir p s ≡ o
          → (chmod_entries r (chmod r n perm true) p o s).0 ≢ out_of_fuel
      entries none e = λ e'. cc
      entries (some files) e =
          each_ends (chmod r n perm true) (λ q. height q < height p) (λ q t lq. k q t (omega arith))
            (children p files) s (fin p s files e)

  -- On a finite tree, chmod ends, recursive or not: it needs no more calls in depth than the height of
  -- its path.
  chmod-ends :
      IsFinite
      → (n perm : ℕ) (recursive : Bool) (p : Bytes) (s : S) → height p < n
      → (chmod r n perm recursive p s).0 ≢ out_of_fuel
  unfolding chmod
  chmod-ends fin zero perm recursive p s l = absurd (omega arith)
  chmod-ends fin (suc n) perm false p s l =
      then_ends (outcome (r.chmod p perm s)) _ (outcome_ends (r.chmod p perm s)) (λ t e. cc)
  chmod-ends fin (suc n) perm true p s l =
      then_ends (outcome (r.chmod p perm s)) _ (outcome_ends (r.chmod p perm s)) (λ t.
        chmod_below-ends n perm p fin (λ q u lq. chmod-ends fin n perm true q u lq) l (r.lstat p t)
          t)
