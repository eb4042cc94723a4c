-- ===== src/Sftp/Transfers/Laws.antt =====
-- What the uploads and the download do with a file.
use ssheasy.Base.{◌≤◌, true, ◌≡◌, List, [], none, some, arith}
use ssheasy.Base.Text.{Bytes}
use ssheasy.Sftp.{FileInfo, Remote, Reply, failure, content, Call}
use ssheasy.Sftp.Names.{upload_name}
use ssheasy.Sftp.Names.Laws.{IsTaken, upload_name_lem}
use ssheasy.Sftp.Transfers.{upload}

sent : Reply → Bytes
sent (content s) = s
sent _ = []

module _ {ℓ} {S : Type ℓ} (r : Remote S) where
  -- An upload to a directory that has an entry of the file's name fails and changes nothing.
  upload-taken :
      (c : Call) (dst name bytes : Bytes) (files : List FileInfo) (s : S)
      → c.connected ≡ true
      → 4 ≤ c.count
      → r.read_dir dst s ≡ some files
      → IsTaken name files
      → upload r c dst name bytes s ≡ (failure, s)
  unfolding upload
  upload-taken c dst name bytes files s con n d t =
      let none_left : upload_name name files ≡ none = (upload_name_lem name files).1 t in
      ground (arith)
