-- ===== src/Sftp/Page.antt =====
-- web/browser.go: sftpClient with initSftp and getwd, and the calls of the page that initFileBrowserAPI
-- sets. A value of the page is read through the methods of syscall/js, which are parameters; their
-- panics on values of a type that the page does not pass are left out.
use ssheasy.Base.{ℕ, Bool, true, false, List, [], ◌∷◌, Option, none, some, length, get_or}
use ssheasy.Base.Text.{Bytes, codes}
use ssheasy.Sftp.{Remote, Reply, Call}
use ssheasy.Sftp.Files.{list, rename, move, copy, edit, get_content, create_folder}
use ssheasy.Sftp.Trees.{delete, change_perm}
use ssheasy.Sftp.Transfers.{Zip, upload, upload_to_downloads, download, download_multiple}

-- initSftp: the client that sftp.NewClient makes, or nil.
abbrev pub init_sftp {ℓ} : {C : Type ℓ} → Option C → Option C → Option C
init_sftp made sftp_client = made

-- getwd, where `wd` is what the client's Getwd gives.
unfoldable pub getwd {ℓ} : {C : Type ℓ} → (C → Option Bytes) → Option C → Bytes
getwd wd none = codes "nil"
getwd wd (some c) = elim (wd c) [ none ↦ codes "/" | some d ↦ d ]

pub data Handler : Type 0 where
  list_files rename_file move_files copy_files remove_files edit_file content_of make_folder :
      Handler
  change_permission upload_file upload_download download_file download_files : Handler

-- initFileBrowserAPI
abbrev pub file_browser_api : List (Bytes × Handler)
file_browser_api =
    (codes "sftpListFiles", list_files)
    ∷ (codes "sftpRename", rename_file)
    ∷ (codes "sftpMove", move_files)
    ∷ (codes "sftpCopy", copy_files)
    ∷ (codes "sftpRemove", remove_files)
    ∷ (codes "sftpEdit", edit_file)
    ∷ (codes "sftpGetContent", content_of)
    ∷ (codes "sftpCreateFolder", make_folder)
    ∷ (codes "sftpChangePermission", change_permission)
    ∷ (codes "sftpUpload", upload_file)
    ∷ (codes "sftpUploadToDownloads", upload_download)
    ∷ (codes "sftpDownload", download_file)
    ∷ (codes "sftpMultipleDownload", download_files)
    ∷ []

-- The methods of js.Value that the handlers call on an argument.
pub record Js {κ} (V : Type κ) : Type κ where
  pub undefined : V
  pub string_of : V → Bytes
  pub strings_of : V → List Bytes
  pub bool_of : V → Bool
  pub bytes_of : V → Bytes

abbrev pub is_set {ℓ} : {C : Type ℓ} → Option C → Bool
is_set none = false
is_set (some c) = true

module _ {ℓ κ} {S : Type ℓ} {V : Type κ} (r : Remote S) (js : Js V) (zip : Zip) (depth : ℕ) where
  abbrev arg : List V → ℕ → V
  arg args i = get_or args i js.undefined

  abbrev text_arg : List V → ℕ → Bytes
  text_arg args i = js.string_of (arg args i)

  abbrev texts_arg : List V → ℕ → List Bytes
  texts_arg args i = js.strings_of (arg args i)

  -- A call of the page with these arguments; the callback among them shows in the reply. The two
  -- recursive handlers are given `depth`.
  unfoldable pub invoke {μ} : {C : Type μ} → Option C → Handler → List V → S → Reply × S
  invoke client h args s =
      let c : Call = record { connected = is_set client; count = length args } in
      elim h [
        | list_files ↦ list r c (text_arg args 0) s
        | rename_file ↦ rename r c (text_arg args 0) (text_arg args 1) s
        | move_files ↦ move r c (texts_arg args 0) (text_arg args 1) s
        | copy_files ↦ copy r c (texts_arg args 0) (text_arg args 1) (text_arg args 2) s
        | remove_files ↦ delete r depth c (texts_arg args 0) s
        | edit_file ↦ edit r c (text_arg args 0) (text_arg args 1) s
        | content_of ↦ get_content r c (text_arg args 0) s
        | make_folder ↦ create_folder r c (text_arg args 0) s
        | change_permission ↦
            change_perm r depth c (texts_arg args 0) (text_arg args 1) (js.bool_of (arg args 2)) s
        | upload_file ↦ upload r c (text_arg args 0) (text_arg args 1) (js.bytes_of (arg args 2)) s
        | upload_download ↦ upload_to_downloads r c (text_arg args 0) (js.bytes_of (arg args 1)) s
        | download_file ↦ download r c (text_arg args 0) s
        | download_files ↦ download_multiple r zip c (texts_arg args 0) s
      ]
