-- ===== src/Sftp/Examples.antt =====
-- The theorems about the file browser at concrete inputs: a server with one directory, which counts
-- the changes inside and outside of it.
use ssheasy.Base.{
  ℕ, ◌+◌, ◌<◌, Bool, true, false, ◌≡◌, ◌≢◌, refl, inl, inr, Bool-cases, List, [], ◌∷◌, Option, none,
  some, arith, if◌then◌else◌, All, All-append, ◌++◌,
}
use ssheasy.Base.Text.{Bytes, codes, bytes_eq, bytes_eq_iff, has_prefix, split}
use ssheasy.Base.FilePath.{
  dot, dot_dot, join_path, clean, elements, join_elements, steps, step, pop_or_push,
}
use ssheasy.Base.FilePath.Laws.{IsEntry, join_path-entries}
use ssheasy.Base.Text.Laws.{Lacks}
use ssheasy.Sftp.{FileInfo, Remote, Call, out_of_fuel}
use ssheasy.Sftp.Names.{download_name}
use ssheasy.Sftp.Names.Laws.{IsTaken, download_name-free}
use ssheasy.Sftp.Trees.{chmod, rec_delete, children}
use ssheasy.Sftp.Trees.Laws.{Below, here, inside, ListsEntries, rec_delete-Below, chmod-Below}
use ssheasy.Sftp.Trees.Ends.{IsFinite, rec_delete-ends}

abbrev folder : Bytes
folder = codes "/d"

abbrev plain : Bytes → FileInfo
plain name = record { name = name; is_dir = false; size = 3; mode = 0o644; mod_time = [] }

abbrev files : List FileInfo
files = plain (codes "a.txt") ∷ plain (codes "a.txt.1") ∷ []

-- Changes below the folder, and changes elsewhere.
abbrev Tally : Type 0
Tally = ℕ × ℕ

abbrev count_change : Bytes → Tally → Bool × Tally
count_change p (m, n) = if has_prefix p folder then (true, (m + 1, n)) else (true, (m, n + 1))

abbrev folder_files : Bool → Option (List FileInfo)
folder_files true = some files
folder_files false = none

abbrev server : Remote Tally
server = record {
  lstat = λ p s. some (record (plain p) { is_dir = bytes_eq p folder });
  read_dir = λ p s. folder_files (bytes_eq p folder);
  real_path = λ p s. some folder;
  open_truncated = count_change;
  create = count_change;
  write = λ p bytes. count_change p;
  opens = λ p s. (true, s);
  read_all = λ p s. some (codes "abc");
  close = λ p s. s;
  rename = λ p q. count_change p;
  remove = count_change;
  remove_directory = count_change;
  mkdir = count_change;
  mkdir_all = count_change;
  chmod = λ p perm. count_change p;
  run_cmd = λ line s. (true, s);
}

abbrev height : Bytes → ℕ
height p = if bytes_eq p folder then 1 else 0

abbrev call : Call
call = record { connected = true; count = 4 }

download_name-free_example : ¬ IsTaken (download_name (codes "a.txt") files) files
download_name-free_example = download_name-free (codes "a.txt") files (omega arith)

-- Nothing changes elsewhere.
abbrev Untouched : Tally → Type 0
Untouched s = s.1 ≡ 5

is_entry : (name : Bytes) → Lacks b'/' name → name ≢ [] → name ≢ dot → name ≢ dot_dot → IsEntry name
is_entry name l e d u = record { some_text = e; not_here = d; not_up = u; no_slash = l }

server-ListsEntries : ListsEntries server
server-ListsEntries p s fs e = elim (Bool-cases (bytes_eq p folder)) [
  | inr d ↦ ground arith
  | inl d ↦ let same : files ≡ fs = ground arith in rw (← same) (entry_a, (entry_b, tt))
]
  where
    entry_a : IsEntry (codes "a.txt")
    entry_a = is_entry (codes "a.txt") (omega arith) (λ e. cc) (λ e. cc) (λ e. cc)

    entry_b : IsEntry (codes "a.txt.1")
    entry_b = is_entry (codes "a.txt.1") (omega arith) (λ e. cc) (λ e. cc) (λ e. cc)

-- What lies below the folder begins with its path.
Below-entries :
    (p : Bytes)
    → Below folder p
    → (es : List Bytes) × All IsEntry es × (p ≡ b'/' ∷ join_elements (codes "d" ∷ es))
unfolding join_elements
Below-entries _ here = ([], tt, refl)
Below-entries _ (inside d name n b) =
    let (es, h, e) = Below-entries d b in
    (
      es ++ name ∷ [],
      All-append IsEntry es (name ∷ []) h (n, tt),
      rw (e) (
          join_path-entries (codes "d" ∷ es) name
            (is_entry (codes "d") (omega arith) (λ e. cc) (λ e. cc) (λ e. cc), h) n),
    )

starts_there : (es : List Bytes) → has_prefix (b'/' ∷ join_elements (codes "d" ∷ es)) folder ≡ true
unfolding join_elements has_prefix
starts_there [] = refl
starts_there (e ∷ es) = refl

keeps : (p : Bytes) (s : Tally) → Below folder p → Untouched s → Untouched (count_change p s).1
keeps p s b h =
    let (es, n, e) = Below-entries p b in
    let there : has_prefix p folder ≡ true = rw (e) (starts_there es) in rw (there) h

rec_delete-Below_example : Untouched (rec_delete server 2 folder (0, 5)).1
rec_delete-Below_example =
    rec_delete-Below Untouched server server-ListsEntries folder keeps keeps 2 (0, 5) refl

folder_low : All (λ q. height q < height folder) (children folder files)
unfolding join_path clean elements join_elements steps step pop_or_push split bytes_eq
folder_low = (omega arith, (omega arith, tt))

server-IsFinite : IsFinite server height
server-IsFinite p s fs e = elim (Bool-cases (bytes_eq p folder)) [
  | inr d ↦ ground arith
  | inl d ↦
      let same : files ≡ fs = ground arith in rw (← same, (bytes_eq_iff p folder).0 d) folder_low
]

rec_delete-ends_example : (rec_delete server 2 folder (0, 5)).0 ≢ out_of_fuel
unfolding bytes_eq
rec_delete-ends_example =
    rec_delete-ends server height server-IsFinite 2 folder (0, 5) (omega arith)

chmod-Below_example : Untouched (chmod server 2 0o600 true folder (0, 5)).1
chmod-Below_example =
    chmod-Below Untouched server server-ListsEntries folder 0o600 keeps 2 true (0, 5) refl
