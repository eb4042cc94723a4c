-- ===== src/Site/Brand.antt =====
-- The entry point of the static site is the branded index.html.
use ssheasy.Base.{false, ◌≡◌, refl, ◌∙◌, ap, Option, none, some, inl, inr, ◌⊎◌}
use ssheasy.Base.Text.{Bytes, codes, bytes_eq, has_suffix, has_prefix}
use ssheasy.Base.FilePath.{join_path}
use ssheasy.Base.Maps.{Map, empty}
use ssheasy.Http.{Header, Request}
use ssheasy.FileServer.Content.{Library}
use ssheasy.FileServer.Dir.{FileSystem}
use ssheasy.FileServer.Files.{Pages, index_page}
use ssheasy.Site.{
  no_branding, placeholder, replace_all, add_read, brand_files, load_branding, html_type,
  send_branded, spa_name, is_plain, spa_serve,
}

-- Reading the other two pages does not touch the first.
add_read-others :
    (name : Bytes) (files : Map Bytes) (manifest webauthn : Option Bytes)
    → add_read name
        (codes "webauthn.html")
        (add_read name (codes "manifest.webmanifest") files manifest)
        webauthn
        index_page
      ≡ files index_page
unfolding bytes_eq
add_read-others name files none none = refl
add_read-others name files none (some b) = refl
add_read-others name files (some a) none = refl
add_read-others name files (some a) (some b) = refl

load_branding-index :
    (read_file : Bytes → Option Bytes) (env dir text : Bytes)
    → read_file (join_path dir (codes "index.html")) ≡ some text
    → (load_branding read_file env dir no_branding).files index_page
      ≡ some (replace_all text placeholder (load_branding read_file env dir no_branding).app_name)
unfolding load_branding brand_files bytes_eq
load_branding-index read_file env dir text h =
    let name = (load_branding read_file env dir no_branding).app_name in
    let first =
      add_read name (codes "index.html") empty (read_file (join_path dir (codes "index.html"))) in
    add_read-others name first (read_file (join_path dir (codes "manifest.webmanifest")))
      (read_file (join_path dir (codes "webauthn.html")))
    ∙ ap (λ o. add_read name (codes "index.html") empty o index_page) h

-- If index.html can be read at the start, a request for it, for the root or for anything that is
-- neither branded nor a file is answered 200 with that page, the placeholder replaced by the name of
-- the app.
spa_serve-index :
    (lib : Library) (pages : Pages) (read_file : Bytes → Option Bytes) (env dir text : Bytes)
    (root : FileSystem) (w : Header) (r : Request)
    → read_file (join_path dir (codes "index.html")) ≡ some text
    → (spa_name r.path ≡ index_page)
      ⊎ ((load_branding read_file env dir no_branding).files (spa_name r.path) ≡ none)
        × (is_plain root (spa_name r.path) ≡ false)
    → spa_serve lib pages (load_branding read_file env dir no_branding).files root w r
      ≡ send_branded w html_type
          (replace_all text placeholder (load_branding read_file env dir no_branding).app_name)
unfolding spa_serve has_suffix has_prefix
spa_serve-index lib pages read_file env dir text root w r h (inl e) =
    rw (e, load_branding-index read_file env dir text h) refl
spa_serve-index lib pages read_file env dir text root w r h (inr (e, p)) =
    rw (e, p, load_branding-index read_file env dir text h) refl
