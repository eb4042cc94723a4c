-- ===== src/Site/Examples.antt =====
-- The theorems about the static site at concrete files and requests.
use ssheasy.Base.{true, ◌≡◌, [], ◌++◌, none, some, if◌then◌else◌}
use ssheasy.Base.Int.{pos}
use ssheasy.Base.Text.{Bytes, codes, bytes_eq}
use ssheasy.Base.Maps.{empty}
use ssheasy.Http.{Request, method_get}
use ssheasy.FileServer.Content.{Library}
use ssheasy.FileServer.Dir.{not_exist, fails, gives, FileSystem}
use ssheasy.FileServer.Files.{Pages}
use ssheasy.Site.{spa_serve}
use ssheasy.Site.NoListing.{blind, spa_serve-blind}

abbrev lib : Library
lib = record {
  parse_time = λ s. none;
  format_time = λ t. codes "today";
  type_by_extension = λ e. codes "text/plain";
  detect_content_type = λ s. codes "text/plain";
  http_error = λ message code h. record { status = code; header = h; written = message };
  part_head = λ boundary first h. codes "--" ++ boundary;
  close_line = λ boundary. codes "--" ++ (boundary ++ codes "--");
  boundary = codes "x";
  count_boundary = codes "y";
}

abbrev pages : Pages
pages = record { sort_by_name = λ ds. ds; url_string = λ s. s }

abbrev asked_for : Bytes → Request
asked_for path = record {
  method = method_get;
  path = path;
  raw_query = [];
  header = empty;
  remote_addr = codes "10.0.0.1:1024";
  cookie = λ name. none;
  form_value = λ name. [];
}

-- A root with a directory `/lib` and nothing else.
abbrev root : FileSystem
root name =
    if bytes_eq name (codes "/lib")
    then gives (record {
      stat = gives (record { name = codes "lib"; size = pos 0; mod_time = pos 0; is_dir = true });
      readdir = some [];
      content = [];
    })
    else fails not_exist

spa_serve-blind_example :
    spa_serve lib pages empty (blind root) empty (asked_for (codes "/lib/"))
    ≡ spa_serve lib pages empty root empty (asked_for (codes "/lib/"))
spa_serve-blind_example = spa_serve-blind lib pages empty root empty (asked_for (codes "/lib/"))

abbrev title : Bytes
title = codes "<title>__APP_NAME__</title>"
