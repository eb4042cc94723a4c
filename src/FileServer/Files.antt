-- ===== src/FileServer/Files.antt =====
-- proxy/fileserver.go: serveFile, dirList, localRedirect and the handlers of FileServer and ServeFile. The
-- sorting of a listing and the escaping of its links are parameters.
pub mod Listing
use ssheasy.Base.{
  ℕ, Bool, true, false, List, [], ◌∷◌, ◌++◌, Option, none, some, if◌then◌else◌, ◌==◌, ◌||◌, not,
}
use ssheasy.Base.Int.{ℤ}
use ssheasy.Base.Text.{Bytes, codes, bytes_eq, has_prefix, has_suffix, trim_suffix, contains, split}
use ssheasy.Base.FilePath.{dot, dot_dot, join_elements, join_path, clean, base}
use ssheasy.Base.Maps.{insert}
use ssheasy.Http.{Header, Request}
use ssheasy.FileServer.Conditions.{
  CondResult, cond_false, cond_true, cond_none, Verdict, answered, goes_on, aborts, ran_out,
  check_if_modified_since, write_not_modified,
}
use ssheasy.FileServer.Content.{
  Library, Response, Served, sends, panics, out_of_fuel, serve_content,
}
use ssheasy.FileServer.Dir.{
  OsError, not_exist, permission, other, Try, fails, gives, Info, File, FileSystem, Os, part_loop,
  map_dir_open_error, or_here, full_name, dir_open,
}

-- sort.Slice by the names, and String of a url.URL with a path only.
pub record Pages : Type 0 where
  pub sort_by_name : List Info → List Info
  pub url_string : Bytes → Bytes

-- toHTTPError: the message and the status.
abbrev pub error_text : OsError → Bytes
error_text not_exist = codes "404 page not found"
error_text permission = codes "403 Forbidden"
error_text other = codes "500 Internal Server Error"

abbrev pub error_status : OsError → ℕ
error_status not_exist = 404
error_status permission = 403
error_status other = 500

-- localRedirect
unfoldable pub local_redirect : Header → Request → Bytes → Served
local_redirect w r new_path =
    let location = if bytes_eq r.raw_query [] then new_path else new_path ++ b'?' ∷ r.raw_query in
    sends
      (record { status = 301; header = insert (codes "Location") (location ∷ []) w; written = [] })

-- htmlReplacer
abbrev pub html_byte : ℕ → Bytes
html_byte c =
    if c == b'&'
    then codes "&amp;"
    else if c == b'<'
    then codes "&lt;"
    else if c == b'>'
    then codes "&gt;"
    else if c == b'"'
    then codes "&#34;"
    else if c == b'\''
    then codes "&#39;"
    else c ∷ []

unfoldable pub html_replace : Bytes → Bytes
html_replace [] = []
html_replace (c ∷ s) = html_byte c ++ html_replace s

abbrev pub index_page : Bytes
index_page = codes "/index.html"

-- s[len(s)-1]; `none` is a panic.
unfoldable pub last_byte : Bytes → Option ℕ
last_byte [] = none
last_byte (c ∷ []) = some c
last_byte (c ∷ d ∷ s) = last_byte (d ∷ s)

-- The redirects to the canonical path.
abbrev pub canonical : Header → Request → Bool → Bool → Option Served
canonical w r false dir = none
canonical w r true dir = elim (last_byte r.path) [
  | none ↦ some panics
  | some c ↦
      if dir
      then (if c == b'/' then none else some (local_redirect w r (base r.path ++ codes "/")))
      else (if c == b'/' then some (local_redirect w r (codes "../" ++ base r.path)) else none)
]

abbrev pub dir_slash : Header → Request → Bool → Option Served
dir_slash w r false = none
dir_slash w r true = elim (last_byte r.path) [
  | none ↦ some panics
  | some c ↦ if c == b'/' then none else some (local_redirect w r (base r.path ++ codes "/"))
]

-- Of a directory, its index.html if there is one.
abbrev pub with_index : FileSystem → Bytes → File → Info → File × Info
with_index fs name f d =
    if d.is_dir
    then elim (fs (trim_suffix name (codes "/") ++ index_page)) [
      | fails e ↦ (f, d)
      | gives ff ↦ elim ff.stat [ fails e ↦ (f, d) | gives dd ↦ (ff, dd) ]
    ]
    else (f, d)

abbrev pub first_some : Option Served → Served → Served
first_some none s = s
first_some (some t) s = t

abbrev pub verdict_served : Verdict → Served
verdict_served (goes_on range) = panics
verdict_served (answered code h) = sends (record { status = code; header = h; written = [] })
verdict_served aborts = panics
verdict_served ran_out = out_of_fuel

abbrev pub rooted_path : Bytes → Bytes
rooted_path path = if has_prefix path (codes "/") then path else b'/' ∷ path

abbrev pub with_path : Request → Bytes → Request
with_path r path = record {
  method = r.method;
  path = path;
  raw_query = r.raw_query;
  header = r.header;
  remote_addr = r.remote_addr;
  cookie = r.cookie;
  form_value = r.form_value;
}

-- isSlashRune
abbrev pub is_slash : ℕ → Bool
is_slash c = c == b'/' || c == b'\\'

abbrev add_field : Bytes → List Bytes → List Bytes
add_field [] fields = fields
add_field (c ∷ s) fields = (c ∷ s) ∷ fields

-- strings.FieldsFunc with isSlashRune, as the current field and the fields behind it.
unfoldable pub fields_from : Bytes → Bytes × List Bytes
fields_from [] = ([], [])
fields_from (c ∷ s) =
    let (field, fields) = fields_from s in
    if is_slash c then ([], add_field field fields) else (c ∷ field, fields)

abbrev pub fields : Bytes → List Bytes
fields v = let (field, rest) = fields_from v in add_field field rest

unfoldable pub any_dot_dot : List Bytes → Bool
any_dot_dot [] = false
any_dot_dot (e ∷ es) = bytes_eq e dot_dot || any_dot_dot es

-- containsDotDot
unfoldable pub contains_dot_dot : Bytes → Bool
contains_dot_dot v = if not (contains v dot_dot) then false else any_dot_dot (fields v)

-- filepath.Split: up to and with the last slash, and the rest.
unfoldable pub split_path : Bytes → Bytes × Bytes
split_path [] = ([], [])
split_path (c ∷ s) =
    let (dir, file) = split_path s in
    if c == b'/'
    then (c ∷ dir, file)
    else if bytes_eq dir []
    then ([], c ∷ file)
    else (c ∷ dir, file)

module _ (lib : Library) (pages : Pages) where
  abbrev pub row_name : Info → Bytes
  row_name d = if d.is_dir then d.name ++ codes "/" else d.name

  abbrev pub row : Info → Bytes
  row d =
      codes "<a href=\""
      ++ (pages.url_string (row_name d)
          ++ (codes "\">" ++ (html_replace (row_name d) ++ codes "</a>\n")))

  unfoldable pub rows : List Info → Bytes
  rows [] = []
  rows (d ∷ ds) = row d ++ rows ds

  abbrev pub page : List Info → Bytes
  page ds = codes "<pre>\n" ++ (rows ds ++ codes "</pre>\n")

  -- dirList
  unfoldable pub dir_list : Header → File → Served
  dir_list w f = elim f.readdir [
    | none ↦ sends (lib.http_error (codes "Error reading directory") 500 w)
    | some dirs ↦ sends (record {
      status = 200;
      header = insert (codes "Content-Type") (codes "text/html; charset=utf-8" ∷ []) w;
      written = page (pages.sort_by_name dirs);
    })
  ]

  abbrev listed : Header → File → Info → CondResult → Served
  listed w f d cond_false = verdict_served (write_not_modified lib.parse_time lib.format_time w)
  listed w f d cond_true =
      dir_list (insert (codes "Last-Modified") (lib.format_time d.mod_time ∷ []) w) f
  listed w f d cond_none =
      dir_list (insert (codes "Last-Modified") (lib.format_time d.mod_time ∷ []) w) f

  abbrev pub content_of : Header → Request → File × Info → Served
  content_of w r (f, d) =
      if d.is_dir
      then listed w f d (check_if_modified_since lib.parse_time lib.format_time r d.mod_time)
      else serve_content lib w r d.name d.mod_time d.size f.content

  abbrev pub serve_error : Header → OsError → Served
  serve_error w e = sends (lib.http_error (error_text e) (error_status e) w)

  abbrev pub statted : Header → Request → FileSystem → Bytes → Bool → File → Info → Served
  statted w r fs name redirect f d =
      first_some (canonical w r redirect d.is_dir)
        (first_some (dir_slash w r d.is_dir) (content_of w r (with_index fs name f d)))

  abbrev pub with_stat : Header → Request → FileSystem → Bytes → Bool → File → Try Info → Served
  with_stat w r fs name redirect f (fails e) = serve_error w e
  with_stat w r fs name redirect f (gives d) = statted w r fs name redirect f d

  abbrev pub opened : Header → Request → FileSystem → Bytes → Bool → Try File → Served
  opened w r fs name redirect (fails e) = serve_error w e
  opened w r fs name redirect (gives f) = with_stat w r fs name redirect f f.stat

  -- serveFile
  unfoldable pub serve_file : Header → Request → FileSystem → Bytes → Bool → Served
  serve_file w r fs name redirect =
      if has_suffix r.path index_page
      then local_redirect w r (codes "./")
      else opened w r fs name redirect (fs name)

  -- fileHandler.ServeHTTP
  unfoldable pub serve_http : FileSystem → Header → Request → Served
  serve_http root w r =
      let path = rooted_path r.path in serve_file w (with_path r path) root (clean path) true

  -- ServeFile, over Dir of the directory of the name.
  unfoldable pub serve_named_file : Os → Header → Request → Bytes → Served
  serve_named_file os w r name =
      if contains_dot_dot r.path
      then sends (lib.http_error (codes "invalid URL path") 400 w)
      else let (dir, file) = split_path name in serve_file w r (dir_open os dir) file false
