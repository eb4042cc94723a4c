-- ===== src/Sftp/Files.antt =====
-- web/browser.go: the handlers for one file or folder: list, rename, move, copy, edit, getContent and
-- createFolder.
use ssheasy.Base.{
  map, ltb, ◌==◌, Bool, true, false, ◌&&◌, not, List, [], ◌∷◌, ◌++◌, Option, none, some,
  if◌then◌else◌, length,
}
use ssheasy.Base.Text.{Bytes, codes, bytes_eq}
use ssheasy.Base.FilePath.{join_path, base}
use ssheasy.Sftp.Mode.{new_file, files_to_js}
use ssheasy.Sftp.{
  FileInfo, Remote, Reply, panics, failure, status, content, listing, api_response, Call, guarded,
  replied, outcome, each,
}

abbrev answered {ℓ} : {S : Type ℓ} → Bool × S → Reply × S
answered (ok, s) = (api_response ok, s)

-- The arguments of `cp`, each with a blank behind it; nothing is quoted.
abbrev spaced : List Bytes → Bytes
spaced [] = []
spaced (s ∷ ss) = s ++ codes " " ++ spaced ss

module _ {ℓ} {S : Type ℓ} (r : Remote S) where
  abbrev pub listed : Option (List FileInfo) → S → Reply × S
  listed none s = (status 500, s)
  listed (some files) s = (listing (files_to_js (map new_file files)), s)

  -- list
  unfoldable pub list : Call → Bytes → S → Reply × S
  list c path s = guarded c 2 (λ s. listed (r.read_dir path s) s) s

  -- rename
  unfoldable pub rename : Call → Bytes → Bytes → S → Reply × S
  rename c src dst s = guarded c 3 (λ s. answered (r.rename src dst s)) s

  abbrev target_of : Bool → Bytes → Bytes → Bytes
  target_of true dst s = join_path dst (base s)
  target_of false dst s = dst

  -- IsDir is called on the nil FileInfo that a failed Lstat returns.
  abbrev move_to : List Bytes → Bytes → Option FileInfo → S → Reply × S
  move_to src dst none s = (panics, s)
  move_to src dst (some d) s =
      replied (each (λ f s'. outcome (r.rename f (target_of d.is_dir dst f) s')) src s)

  -- move
  unfoldable pub move : Call → List Bytes → Bytes → S → Reply × S
  move c src dst s = guarded c 3 (λ s. move_to src dst (r.lstat dst s) s) s

  unfoldable pub copy_command : List Bytes → Bytes → Bytes → Bytes
  copy_command src dst single =
      let dst' =
        if not (bytes_eq single []) && (length src == 1) then join_path dst single else dst in
      codes "cp " ++ spaced src ++ dst'

  -- copy. The callback is args[3], which the test for three arguments does not promise.
  unfoldable pub copy : Call → List Bytes → Bytes → Bytes → S → Reply × S
  copy c src dst single s =
      guarded c 3
        (λ s.
          if ltb c.count 4
          then (panics, s)
          else answered (r.run_cmd (copy_command src dst single) s))
        s

  -- The file is not closed.
  abbrev write_opened : Bytes → Bytes → Bool × S → Reply × S
  write_opened item text (false, s) = (failure, s)
  write_opened item text (true, s) = answered (r.write item text s)

  -- edit
  unfoldable pub edit : Call → Bytes → Bytes → S → Reply × S
  edit c item text s = guarded c 3 (λ s. write_opened item text (r.open_truncated item s)) s

  abbrev all_read : Option Bytes → Reply
  all_read none = status 400
  all_read (some fc) = content fc

  -- The file is not closed.
  abbrev read_opened : Bytes → Bool × S → Reply × S
  read_opened item (false, s) = (status 400, s)
  read_opened item (true, s) = (all_read (r.read_all item s), s)

  -- getContent
  unfoldable pub get_content : Call → Bytes → S → Reply × S
  get_content c item s = guarded c 2 (λ s. read_opened item (r.opens item s)) s

  -- createFolder
  unfoldable pub create_folder : Call → Bytes → S → Reply × S
  create_folder c path s = guarded c 2 (λ s. answered (r.mkdir path s)) s
