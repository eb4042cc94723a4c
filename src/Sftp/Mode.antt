-- ===== src/Sftp/Mode.antt =====
-- web/browser.go: newFile, safeMode and filesToJS, the entries of a listing.
use ssheasy.Base.{map, ℕ, suc, ◌+◌, ◌-◌, ◌/◌, ◌%◌, ◌^◌, ◌==◌, Bool, List, [], ◌∷◌, if◌then◌else◌}
use ssheasy.Base.Text.{Bytes, codes}
use ssheasy.Sftp.{FileInfo, Object, string, number}

-- File
pub record File : Type 0 where
  pub name : Bytes
  pub rights : Bytes
  pub size : ℕ
  pub date : Bytes
  pub kind : Bytes

-- m & (1 << k) != 0
abbrev pub has_bit : ℕ → ℕ → Bool
has_bit m k = (m / 2 ^ k) % 2 == 1

-- The loop over "rwxrwxrwx", where `left` letters remain and the last stands for bit 0.
abbrev rwx : ℕ → List ℕ → Bytes
rwx m [] = []
rwx m (c ∷ cs) = (if has_bit m (ssheasy.Base.length cs) then c else b'-') ∷ rwx m cs

-- safeMode
unfoldable pub safe_mode : ℕ → Bytes
safe_mode m = (if has_bit m 31 then b'd' else b'-') ∷ rwx m (codes "rwxrwxrwx")

-- newFile
unfoldable pub new_file : FileInfo → File
new_file f = record {
  name = f.name;
  rights = safe_mode f.mode;
  size = f.size;
  date = f.mod_time;
  kind = if f.is_dir then codes "dir" else codes "file";
}

abbrev file_to_js : File → Object
file_to_js f =
    (codes "name", string f.name)
    ∷ (codes "rights", string f.rights)
    ∷ (codes "size", number f.size)
    ∷ (codes "date", string f.date)
    ∷ (codes "type", string f.kind)
    ∷ []

-- filesToJS
abbrev pub files_to_js : List File → List Object
files_to_js fs = map file_to_js fs
