-- ===== src/Sftp/Trees.antt =====
-- web/browser.go: the handlers that walk a directory tree, recDelete and chmod.
pub mod Laws
pub mod Ends
use ssheasy.Base.{
  ℕ, zero, suc, ◌+◌, ◌-◌, ◌*◌, ◌%◌, ◌^◌, ◌<◌, ltb, leb, ◌==◌, Bool, true, false, ◌||◌, ◌&&◌, not,
  List, [], ◌∷◌, Option, none, some, if◌then◌else◌, map,
}
use ssheasy.Base.Text.{Bytes, codes}
use ssheasy.Base.FilePath.{join_path}
use ssheasy.Sftp.{
  FileInfo, Remote, Reply, Call, guarded, Outcome, done, error, out_of_fuel, failure, replied,
  outcome, and_then, each,
}

-- The digits of strconv.ParseInt in base 8.
octal : ℕ → Bytes → Option ℕ
octal acc [] = some acc
octal acc (c ∷ s) =
    let rest = octal (acc * 8 + (c - b'0')) s in if leb b'0' c && leb c b'7' then rest else none

abbrev non_empty : Bytes → Option ℕ
unfolding octal
non_empty [] = none
non_empty (c ∷ s) = octal 0 (c ∷ s)

abbrev in_range : Bool → Option ℕ → Option ℕ
in_range negative none = none
in_range true (some n) = if leb n (2 ^ 31) then some ((2 ^ 32 - n) % 2 ^ 32) else none
in_range false (some n) = if ltb n (2 ^ 31) then some n else none

-- uint32 of strconv.ParseInt(s, 8, 32)
unfoldable pub parse_octal : Bytes → Option ℕ
unfolding non_empty
parse_octal [] = none
parse_octal (c ∷ s) =
    if c == b'-'
    then in_range true (non_empty s)
    else if c == b'+'
    then in_range false (non_empty s)
    else in_range false (non_empty (c ∷ s))

-- filepath.Join of the directory with every entry.
abbrev pub children : Bytes → List FileInfo → List Bytes
children f files = map (λ i. join_path f i.name) files

module _ {ℓ} {S : Type ℓ} (r : Remote S) where
  abbrev delete_entries :
      (Bytes → S → Outcome × S) → Bytes → Option (List FileInfo) → S → Outcome × S
  delete_entries sub f none s = (error, s)
  delete_entries sub f (some files) s =
      and_then (each sub (children f files) s) (λ s'. outcome (r.remove_directory f s'))

  abbrev delete_at : (Bytes → S → Outcome × S) → Bytes → Option FileInfo → S → Outcome × S
  delete_at sub f none s = (error, s)
  delete_at sub f (some i) s =
      if i.is_dir then delete_entries sub f (r.read_dir f s) s else outcome (r.remove f s)

  -- recDelete, at most `n` directories deep.
  unfoldable pub rec_delete : ℕ → Bytes → S → Outcome × S
  unfolding and_then
  rec_delete zero f s = (out_of_fuel, s)
  rec_delete (suc n) f s = delete_at (rec_delete n) f (r.lstat f s) s

  -- delete
  unfoldable pub delete : ℕ → Call → List Bytes → S → Reply × S
  delete n c items s = guarded c 2 (λ s. replied (each (rec_delete n) items s)) s

  abbrev chmod_entries :
      (Bytes → S → Outcome × S) → Bytes → Option (List FileInfo) → S → Outcome × S
  chmod_entries sub path none s = (error, s)
  chmod_entries sub path (some files) s = each sub (children path files) s

  -- Behind the Chmod of the path itself.
  abbrev chmod_below : (Bytes → S → Outcome × S) → Bytes → Option FileInfo → S → Outcome × S
  chmod_below sub path none s = (error, s)
  chmod_below sub path (some i) s =
      if i.is_dir then chmod_entries sub path (r.read_dir path s) s else (done, s)

  -- chmod, at most `n` directories deep.
  unfoldable pub chmod : ℕ → ℕ → Bool → Bytes → S → Outcome × S
  unfolding and_then
  chmod zero perm recursive path s = (out_of_fuel, s)
  chmod (suc n) perm recursive path s =
      let sub = chmod n perm recursive in
      and_then (outcome (r.chmod path perm s))
        (λ s'. if recursive then chmod_below sub path (r.lstat path s') s' else (done, s'))

  abbrev change_items : ℕ → List Bytes → Bool → Option ℕ → S → Reply × S
  change_items n items recursive none s = (failure, s)
  change_items n items recursive (some perm) s = replied (each (chmod n perm recursive) items s)

  -- changePerm
  unfoldable pub change_perm : ℕ → Call → List Bytes → Bytes → Bool → S → Reply × S
  change_perm n c items perm recursive s =
      guarded c 4 (λ s. change_items n items recursive (parse_octal perm) s) s
