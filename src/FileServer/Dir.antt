-- ===== src/FileServer/Dir.antt =====
-- proxy/fileserver.go: the file systems, Dir.Open and mapDirOpenError. The separator is `/`; the operating
-- system is a parameter.
pub mod Places
use ssheasy.Base.{
  ℕ, Bool, true, false, List, [], ◌∷◌, ◌++◌, Option, none, some, if◌then◌else◌, ◌==◌, ◌||◌, not,
}
use ssheasy.Base.Int.{ℤ}
use ssheasy.Base.Text.{Bytes, codes, bytes_eq, has_prefix, has_suffix, trim_suffix, contains, split}
use ssheasy.Base.FilePath.{dot, dot_dot, join_elements, join_path, clean, base}
use ssheasy.Base.Maps.{insert}
use ssheasy.Http.{Header, Request}
use ssheasy.FileServer.Conditions.{
  CondResult, cond_false, cond_true, cond_none, Verdict, answered, goes_on, aborts, ran_out,
  check_if_modified_since, write_not_modified,
}
use ssheasy.FileServer.Content.{
  Library, Response, Served, sends, panics, out_of_fuel, serve_content,
}

-- What os.IsNotExist and os.IsPermission tell apart.
pub data OsError : Type 0 where
  not_exist permission other : OsError

pub data Try (A : Type 0) : Type 0 where
  fails : OsError → Try A
  gives : A → Try A

pub record Info : Type 0 where
  pub name : Bytes
  pub size : ℤ
  pub mod_time : ℤ
  pub is_dir : Bool

pub record File : Type 0 where
  pub stat : Try Info
  pub readdir : Option (List Info)
  pub content : Bytes

-- The interface FileSystem: its Open.
abbrev pub FileSystem : Type 0
FileSystem = Bytes → Try File

-- Package os: Open and Stat.
pub record Os : Type 0 where
  pub open_file : Bytes → Try File
  pub stat : Bytes → Try Info

module _ (os : Os) (original : OsError) where
  -- `before` are the parts in front.
  unfoldable pub part_loop : List Bytes → List Bytes → OsError
  part_loop before [] = original
  part_loop before (part ∷ parts) =
      let here = before ++ part ∷ [] in
      let rest = part_loop here parts in
      if bytes_eq part [] then rest else elim (os.stat (join_elements here)) [
        | fails e ↦ original
        | gives fi ↦ if fi.is_dir then rest else not_exist
      ]

-- mapDirOpenError
unfoldable pub map_dir_open_error : Os → OsError → Bytes → OsError
map_dir_open_error os not_exist name = not_exist
map_dir_open_error os permission name = permission
map_dir_open_error os other name = part_loop os other [] (split b'/' name)

abbrev pub or_here : Bytes → Bytes
or_here [] = dot
or_here (c ∷ s) = c ∷ s

abbrev pub full_name : Bytes → Bytes → Bytes
full_name dir name = join_path (or_here dir) (clean (b'/' ∷ name))

-- Dir.Open
unfoldable pub dir_open : Os → Bytes → FileSystem
dir_open os dir name = elim (os.open_file (full_name dir name)) [
  | fails e ↦ fails (map_dir_open_error os e (full_name dir name))
  | gives f ↦ gives f
]
