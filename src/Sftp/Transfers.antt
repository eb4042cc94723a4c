-- ===== src/Sftp/Transfers.antt =====
-- web/browser.go: upload, uploadToDownloads, download and downloadMultiple.
pub mod Laws
use ssheasy.Base.{
  ℕ, zero, suc, Bool, true, false, List, [], ◌∷◌, ◌++◌, Option, none, some, if◌then◌else◌,
}
use ssheasy.Base.Text.{Bytes, codes}
use ssheasy.Base.FilePath.{join_path, base}
use ssheasy.Sftp.{
  FileInfo, Remote, Reply, failure, success, status, content, stored, api_response, Call, guarded,
}
use ssheasy.Sftp.Names.{upload_name, download_name}

-- js.CopyBytesToJS into a new array of `size` zeros: what does not fit is lost.
unfoldable pub copy_to_js : ℕ → Bytes → Bytes
copy_to_js zero s = []
copy_to_js (suc n) [] = 0 ∷ copy_to_js n []
copy_to_js (suc n) (c ∷ s) = c ∷ copy_to_js n s

-- zip.Writer over a buffer: whether Create and Write of one more entry succeed, and what Close makes.
pub record Zip : Type 0 where
  pub adds : List (Bytes × Bytes) → Bytes × Bytes → Bool
  pub finish : List (Bytes × Bytes) → Option Bytes

module _ {ℓ} {S : Type ℓ} (r : Remote S) where
  -- Behind the Write; without success, only uploadToDownloads closes the file, which `tidy` says.
  abbrev finished : Bool → Bytes → Reply → Bool × S → Reply × S
  finished tidy full ok (true, s) = (ok, r.close full s)
  finished true full ok (false, s) = (failure, r.close full s)
  finished false full ok (false, s) = (failure, s)

  abbrev written : Bool → Bytes → Bytes → Reply → Bool × S → Reply × S
  written tidy full bytes ok (false, s) = (failure, s)
  written tidy full bytes ok (true, s) = finished tidy full ok (r.write full bytes s)

  -- Create and Write of a file in the directory.
  abbrev save : Bool → Bytes → Bytes → Bytes → Reply → S → Reply × S
  save tidy dst name bytes ok s =
      let full = join_path dst name in written tidy full bytes ok (r.create full s)

  abbrev upload_named : Bytes → Bytes → Option Bytes → S → Reply × S
  upload_named dst bytes none s = (failure, s)
  upload_named dst bytes (some name) s = save false dst name bytes success s

  abbrev upload_into : Bytes → Bytes → Bytes → Option (List FileInfo) → S → Reply × S
  upload_into dst name bytes none s = (failure, s)
  upload_into dst name bytes (some files) s = upload_named dst bytes (upload_name name files) s

  -- upload
  unfoldable pub upload : Call → Bytes → Bytes → Bytes → S → Reply × S
  upload c dst name bytes s = guarded c 4 (λ s. upload_into dst name bytes (r.read_dir dst s) s) s

  abbrev store : Bytes → Bytes → Bytes → Option (List FileInfo) → S → Reply × S
  store dst name bytes none s = (failure, s)
  store dst name bytes (some files) s =
      let n = download_name name files in save true dst n bytes (stored (join_path dst n) n) s

  abbrev made : Bytes → Bytes → Bytes → Bool × S → Reply × S
  made dst name bytes (false, s) = (failure, s)
  made dst name bytes (true, s) = store dst name bytes (r.read_dir dst s) s

  abbrev at_home : Bytes → Bytes → Option Bytes → S → Reply × S
  at_home name bytes none s = (failure, s)
  at_home name bytes (some home) s =
      let dst = join_path home (codes "Downloads") in made dst name bytes (r.mkdir_all dst s)

  -- uploadToDownloads
  unfoldable pub upload_to_downloads : Call → Bytes → Bytes → S → Reply × S
  upload_to_downloads c name bytes s =
      guarded c 3 (λ s. at_home name bytes (r.real_path (codes ".") s) s) s

  -- A file that cannot be read is not closed.
  abbrev sized : Bytes → ℕ → Option Bytes → S → Reply × S
  sized path size none s = (status 400, s)
  sized path size (some fc) s = (content (copy_to_js size fc), r.close path s)

  abbrev opened : Bytes → ℕ → Bool × S → Reply × S
  opened path size (false, s) = (status 400, s)
  opened path size (true, s) = sized path size (r.read_all path s) s

  abbrev pub download_of : Bytes → Option FileInfo → S → Reply × S
  download_of path none s = (status 400, s)
  download_of path (some fs) s =
      if fs.is_dir then (status 400, s) else opened path fs.size (r.opens path s)

  -- download
  unfoldable pub download : Call → Bytes → S → Reply × S
  download c path s = guarded c 2 (λ s. download_of path (r.lstat path s) s) s

  -- One turn of the loop over the items, with the entries so far: the entries behind it, or an error.
  abbrev add_entry :
      Zip → Bytes → List (Bytes × Bytes) → Option Bytes → S → Option (List (Bytes × Bytes)) × S
  add_entry zip path es none s = (none, s)
  add_entry zip path es (some fc) s =
      if zip.adds es (base path, fc)
      then (some (es ++ (base path, fc) ∷ []), r.close path s)
      else (none, r.close path s)

  abbrev one_entry :
      Zip → Bytes → List (Bytes × Bytes) → Bool × S → Option (List (Bytes × Bytes)) × S
  one_entry zip path es (false, s) = (none, s)
  one_entry zip path es (true, s) = add_entry zip path es (r.read_all path s) s

  abbrev go_on :
      (List (Bytes × Bytes) → S → Option (List (Bytes × Bytes)) × S)
      → Option (List (Bytes × Bytes)) × S
      → Option (List (Bytes × Bytes)) × S
  go_on rest (none, s) = (none, s)
  go_on rest (some es, s) = rest es s

  -- The loop over the items: the entries of the archive, or an error at one of them.
  unfoldable pub zip_entries :
      Zip → List Bytes → List (Bytes × Bytes) → S → Option (List (Bytes × Bytes)) × S
  zip_entries zip [] es s = (some es, s)
  zip_entries zip (p ∷ ps) es s = go_on (zip_entries zip ps) (one_entry zip p es (r.opens p s))

  abbrev archived : Zip → Option (List (Bytes × Bytes)) × S → Reply × S
  archived zip (none, s) = (status 400, s)
  archived zip (some es, s) = elim (zip.finish es) [
    | none ↦ (status 400, s)
    | some b ↦ (content b, s)
  ]

  -- downloadMultiple
  unfoldable pub download_multiple : Zip → Call → List Bytes → S → Reply × S
  download_multiple zip c items s = guarded c 2 (λ s. archived zip (zip_entries zip items [] s)) s
