-- ===== src/Site.antt =====
-- proxy/static.go: the branded pages and the static site with its fallback.
pub mod NoListing
pub mod Brand
mod Examples
use ssheasy.Base.{
  ℕ, zero, suc, ◌-◌, Bool, true, false, List, [], ◌∷◌, ◌++◌, Option, none, some, if◌then◌else◌,
  length, not,
}
use ssheasy.Base.Int.{pos}
use ssheasy.Base.Text.{Bytes, codes, bytes_eq, has_prefix, has_suffix, trim_space}
use ssheasy.Base.FilePath.{clean, join_path}
use ssheasy.Base.Maps.{Map, empty, insert}
use ssheasy.Http.{Header, Request}
use ssheasy.FileServer.Content.{Library, Response, Served, sends, serve_seeker}
use ssheasy.FileServer.Dir.{OsError, Try, fails, gives, Info, File, FileSystem}
use ssheasy.FileServer.Files.{Pages, rooted_path, serve_http}

-- strings.ReplaceAll of a text that is not empty; `skip` bytes of a replaced one are still ahead.
unfoldable pub replace_from : Bytes → Bytes → ℕ → Bytes → Bytes
replace_from old new skip [] = []
replace_from old new (suc skip) (c ∷ s) = replace_from old new skip s
replace_from old new zero (c ∷ s) =
    let replaced = replace_from old new (length old - 1) s in
    let kept = replace_from old new zero s in
    if has_prefix (c ∷ s) old then new ++ replaced else c ∷ kept

abbrev pub replace_all : Bytes → Bytes → Bytes → Bytes
replace_all s old new = replace_from old new zero s

-- appName and brandedFiles.
pub record Branding : Type 0 where
  pub app_name : Bytes
  pub files : Map Bytes

abbrev pub placeholder : Bytes
placeholder = codes "__APP_NAME__"

abbrev pub no_branding : Branding
no_branding = record { app_name = codes "python3"; files = empty }

-- What became of reading the file `f`.
abbrev pub add_read : Bytes → Bytes → Map Bytes → Option Bytes → Map Bytes
add_read name f files none = files
add_read name f files (some b) = insert (b'/' ∷ f) (replace_all b placeholder name) files

-- `read_file` is os.ReadFile.
unfoldable pub brand_files :
    (Bytes → Option Bytes) → Bytes → Bytes → List Bytes → Map Bytes → Map Bytes
brand_files read_file dir name [] files = files
brand_files read_file dir name (f ∷ fs) files =
    brand_files read_file dir name fs (add_read name f files (read_file (join_path dir f)))

abbrev pub branded_names : List Bytes
branded_names = codes "index.html" ∷ codes "manifest.webmanifest" ∷ codes "webauthn.html" ∷ []

-- loadBranding, where `env` is the variable APP_NAME.
unfoldable pub load_branding : (Bytes → Option Bytes) → Bytes → Bytes → Branding → Branding
load_branding read_file env dir b =
    let given = trim_space env in
    let name = if bytes_eq given [] then b.app_name else given in
    record { app_name = name; files = brand_files read_file dir name branded_names b.files }

abbrev pub html_type : Bytes
html_type = codes "text/html; charset=utf-8"

abbrev pub send_branded : Header → Bytes → Bytes → Served
send_branded w type body =
    sends (record {
      status = 200;
      header = insert (codes "Content-Type") (type ∷ []) w;
      written = body;
    })

abbrev pub branded_type : Bytes → Bytes
branded_type name =
    if has_suffix name (codes ".webmanifest") then codes "application/manifest+json" else html_type

abbrev pub spa_name : Bytes → Bytes
spa_name path =
    let name = clean (rooted_path path) in
    if bytes_eq name (codes "/") then codes "/index.html" else name

abbrev stat_plain : Try Info → Bool
stat_plain (fails e) = false
stat_plain (gives st) = not st.is_dir

abbrev open_plain : Try File → Bool
open_plain (fails e) = false
open_plain (gives f) = stat_plain f.stat

-- Opens, has a Stat and is no directory.
abbrev pub is_plain : FileSystem → Bytes → Bool
is_plain root name = open_plain (root name)

module _ (lib : Library) (pages : Pages) where
  abbrev pub not_found : Header → Served
  not_found w = sends (lib.http_error (codes "404 page not found") 404 w)

  abbrev index_info : Header → Request → File → Try Info → Served
  index_info w r f (fails e) = not_found w
  index_info w r f (gives st) = serve_seeker lib w r (codes "index.html") st.mod_time f.content

  abbrev index_file : Header → Request → Try File → Served
  index_file w r (fails e) = not_found w
  index_file w r (gives f) = index_info w r f f.stat

  abbrev pub entry_point : FileSystem → Header → Request → Option Bytes → Served
  entry_point root w r (some b) = send_branded w html_type b
  entry_point root w r none = index_file w r (root (codes "/index.html"))

  abbrev pub by_name : Map Bytes → FileSystem → Header → Request → Bytes → Option Bytes → Served
  by_name branded root w r name (some b) = send_branded w (branded_type name) b
  by_name branded root w r name none =
      if is_plain root name
      then serve_http lib pages root w r
      else entry_point root w r (branded (codes "/index.html"))

  -- The handler of spaFileServer.
  unfoldable pub spa_serve : Map Bytes → FileSystem → Header → Request → Served
  spa_serve branded root w r =
      let name = spa_name r.path in by_name branded root w r name (branded name)
