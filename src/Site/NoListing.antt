-- ===== src/Site/NoListing.antt =====
-- The static site never lists a directory.
use mathlib.Core.Bool.{false≢true}
use ssheasy.Base.{
  Bool, true, false, ◌≡◌, refl, ap, ◌∙◌, ◌++◌, Option, none, some, Bool-cases, inl, inr,
}
use ssheasy.Base.Text.{Bytes, codes, bytes_eq, bytes_eq_iff, has_suffix, has_prefix, trim_suffix}
use ssheasy.Base.FilePath.{clean}
use ssheasy.Base.Maps.{Map}
use ssheasy.Http.{Header, Request}
use ssheasy.FileServer.Content.{Library}
use ssheasy.FileServer.Dir.{Try, fails, gives, Info, File, FileSystem}
use ssheasy.FileServer.Files.{
  Pages, rooted_path, with_path, index_page, with_index, serve_file, serve_http, content_of,
  first_some, canonical, dir_slash, statted, with_stat, opened,
}
use ssheasy.FileServer.Dir.Places.{Try-cases}
use ssheasy.Site.{is_plain, spa_name, spa_serve, entry_point, by_name}

-- The same file, but that it cannot be listed.
abbrev pub shut : File → File
shut f = record { stat = f.stat; readdir = none; content = f.content }

abbrev shut_try : Try File → Try File
shut_try (fails e) = fails e
shut_try (gives f) = gives (shut f)

abbrev pub blind : FileSystem → FileSystem
blind fs name = shut_try (fs name)

abbrev shut_pair : File × Info → File × Info
shut_pair (f, d) = (shut f, d)

-- A name that opens as a file, perhaps as the index.html of a directory.
abbrev EndsInFile : FileSystem → Bytes → Type 0
EndsInFile fs name =
    (f : File) (d : Info)
    → fs name ≡ gives f
    → f.stat ≡ gives d
    → (with_index fs name f d).1.is_dir ≡ false

with_index-blind :
    (fs : FileSystem) (name : Bytes) (f : File) (d : Info)
    → with_index (blind fs) name (shut f) d ≡ shut_pair (with_index fs name f d)
with_index-blind fs name f d = elim (Bool-cases d.is_dir) [
  | inr q ↦ rw (q) refl
  | inl q ↦ elim (Try-cases (fs (trim_suffix name (codes "/") ++ index_page))) [
    | inl (e, h) ↦ rw (q, h) refl
    | inr (ff, h) ↦ elim (Try-cases ff.stat) [
      | inl (e, k) ↦ rw (q, h, k) refl
      | inr (dd, k) ↦ rw (q, h, k) refl
    ]
  ]
]

is_plain-file :
    (root : FileSystem) (name : Bytes)
    → is_plain root name ≡ true
    → (f : File) × (d : Info) × (root name ≡ gives f) × (f.stat ≡ gives d) × (d.is_dir ≡ false)
is_plain-file root name h = elim (Try-cases (root name)) [
  | inl (e, o) ↦ absurd (false≢true (rw (o) at h))
  | inr (f, o) ↦ elim (Try-cases f.stat) [
    | inl (e, s) ↦ absurd (false≢true (rw (o, s) at h))
    | inr (d, s) ↦ elim (Bool-cases d.is_dir) [
      | inl q ↦ absurd (false≢true (rw (o, s, q) at h))
      | inr q ↦ (f, d, o, s, q)
    ]
  ]
]

is_plain-blind :
    (root : FileSystem) (name : Bytes) → is_plain (blind root) name ≡ is_plain root name
is_plain-blind root name = elim (Try-cases (root name)) [
  | inl (e, o) ↦ rw (o) refl
  | inr (f, o) ↦ rw (o) refl
]

-- A directory whose index.html is a file ends in it; so does a file.
index-EndsInFile :
    (root : FileSystem) → is_plain root index_page ≡ true → EndsInFile root (codes "/")
unfolding trim_suffix has_suffix has_prefix
index-EndsInFile root h f d o s =
    let (ff, dd, i, t, plain) = is_plain-file root index_page h in
    elim (Bool-cases d.is_dir) [ inr q ↦ rw (q) refl | inl q ↦ rw (q, i, t) plain ]

file-EndsInFile :
    (root : FileSystem) (name : Bytes) → is_plain root name ≡ true → EndsInFile root name
file-EndsInFile root name h f d o s =
    let (f', d', o', s', plain) = is_plain-file root name h in
    let same : d.is_dir ≡ false = cc in rw (same) refl

spa_name-EndsInFile :
    (root : FileSystem) (path : Bytes)
    → is_plain root (spa_name path) ≡ true
    → EndsInFile root (clean (rooted_path path))
spa_name-EndsInFile root path h =
    elim (Bool-cases (bytes_eq (clean (rooted_path path)) (codes "/"))) [
      | inr q ↦ file-EndsInFile root (clean (rooted_path path)) (rw (q) at h)
      | inl q ↦
          rw ((bytes_eq_iff (clean (rooted_path path)) (codes "/")).0 q)
            (index-EndsInFile root (rw (q) at h))
    ]

module _ (lib : Library) (pages : Pages) where
  content_of-blind :
      (w : Header) (r : Request) (x : File × Info)
      → x.1.is_dir ≡ false
      → content_of lib pages w r (shut_pair x) ≡ content_of lib pages w r x
  content_of-blind w r (f, d) h = rw (h) refl

  module _ (w : Header) (r : Request) (fs : FileSystem) (name : Bytes) (redirect : Bool)
      (file : EndsInFile fs name) where
    statted-blind :
        (f : File) (d : Info)
        → fs name ≡ gives f
        → f.stat ≡ gives d
        → statted lib pages w r (blind fs) name redirect (shut f) d
          ≡ statted lib pages w r fs name redirect f d
    statted-blind f d o s =
        ap
          (λ x.
            first_some (canonical w r redirect d.is_dir) (first_some (dir_slash w r d.is_dir) x))
          (ap (content_of lib pages w r) (with_index-blind fs name f d)
            ∙ content_of-blind w r (with_index fs name f d) (file f d o s))

    with_stat-blind :
        (f : File)
        → fs name ≡ gives f
        → (st : Try Info) → f.stat ≡ st
        → with_stat lib pages w r (blind fs) name redirect (shut f) st
          ≡ with_stat lib pages w r fs name redirect f st
    with_stat-blind f o (fails e) s = refl
    with_stat-blind f o (gives d) s = statted-blind f d o s

    opened-blind :
        (t : Try File)
        → fs name ≡ t
        → opened lib pages w r (blind fs) name redirect (shut_try t)
          ≡ opened lib pages w r fs name redirect t
    opened-blind (fails e) o = refl
    opened-blind (gives f) o = with_stat-blind f o f.stat refl

    serve_file-blind :
        serve_file lib pages w r (blind fs) name redirect
        ≡ serve_file lib pages w r fs name redirect
    unfolding serve_file
    serve_file-blind = elim (Bool-cases (has_suffix r.path index_page)) [
      | inl q ↦ rw (q) refl
      | inr q ↦ rw (q) (opened-blind (fs name) refl)
    ]

  entry_point-blind :
      (root : FileSystem) (w : Header) (r : Request) (branded : Option Bytes)
      → entry_point lib pages (blind root) w r branded ≡ entry_point lib pages root w r branded
  entry_point-blind root w r (some b) = refl
  entry_point-blind root w r none = elim (Try-cases (root index_page)) [
    | inl (e, o) ↦ rw (o) refl
    | inr (f, o) ↦ rw (o) refl
  ]

  by_name-blind :
      (branded : Map Bytes) (root : FileSystem) (w : Header) (r : Request) (found : Option Bytes)
      → by_name lib pages branded (blind root) w r (spa_name r.path) found
        ≡ by_name lib pages branded root w r (spa_name r.path) found
  unfolding serve_http
  by_name-blind branded root w r (some b) = refl
  by_name-blind branded root w r none = elim (Bool-cases (is_plain root (spa_name r.path))) [
    | inl q ↦
        rw (is_plain-blind root (spa_name r.path), q)
          (serve_file-blind w (with_path r (rooted_path r.path)) root (clean (rooted_path r.path))
            true (spa_name-EndsInFile root r.path q))
    | inr q ↦
        rw (is_plain-blind root (spa_name r.path), q)
          (entry_point-blind root w r (branded index_page))
  ]

  -- The site answers every request as it would if no directory could be read, whatever files there
  -- are: it never lists one.
  pub spa_serve-blind :
      (branded : Map Bytes) (root : FileSystem) (w : Header) (r : Request)
      → spa_serve lib pages branded (blind root) w r ≡ spa_serve lib pages branded root w r
  unfolding spa_serve
  spa_serve-blind branded root w r = by_name-blind branded root w r (branded (spa_name r.path))
