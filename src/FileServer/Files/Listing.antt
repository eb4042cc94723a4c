-- ===== src/FileServer/Files/Listing.antt =====
-- A directory's listing as markup.
use ssheasy.Base.{
  ℕ, ◌+◌, ◌*◌, ◌≡◌, refl, List, [], ◌∷◌, ◌++◌, some, if◌then◌else◌, ◌==◌, inl, inr, ◌⊎◌, arith,
  length,
}
use ssheasy.Base.Text.{Bytes, codes}
use ssheasy.Base.Maps.{insert}
use ssheasy.Http.{Header}
use ssheasy.FileServer.Content.{Library, Response, sends}
use ssheasy.FileServer.Dir.{Info, File}
use ssheasy.FileServer.Files.{Pages, html_byte, html_replace, row_name, row, rows, page, dir_list}

-- How often a byte occurs.
unfoldable pub count : ℕ → Bytes → ℕ
count b [] = 0
count b (c ∷ s) = (if c == b then 1 else 0) + count b s

pub count-append : (b : ℕ) (s t : Bytes) → count b (s ++ t) ≡ count b s + count b t
unfolding count
count-append b [] t = omega arith
count-append b (c ∷ s) t = omega (arith, count-append b s t)

-- The bytes that open or close a tag, or end an attribute.
abbrev pub IsMarkup : ℕ → Type 0
IsMarkup b = (b ≡ b'<') ⊎ (b ≡ b'>') ⊎ (b ≡ b'"')

html_byte-count : (b c : ℕ) → IsMarkup b → count b (html_byte c) ≡ 0
unfolding count
html_byte-count b c h = ground arith

html_replace-count : (b : ℕ) (s : Bytes) → IsMarkup b → count b (html_replace s) ≡ 0
unfolding html_replace count
html_replace-count b [] h = refl
html_replace-count b (c ∷ s) h = omega (
  arith,
  count-append b (html_byte c) (html_replace s),
  html_byte-count b c h,
  html_replace-count b s h,
)

tags-count :
    (b : ℕ)
    → IsMarkup b
    → count b (codes "<a href=\"") + count b (codes "\">") + count b (codes "</a>\n") ≡ 2
unfolding count
tags-count b (inl e) = rw (e) refl
tags-count b (inr (inl e)) = rw (e) refl
tags-count b (inr (inr e)) = rw (e) refl

module _ (lib : Library) (pages : Pages) where
  module _ (b : ℕ) (markup : IsMarkup b)
      (links : (s : Bytes) → count b (pages.url_string s) ≡ 0) where
    row-count : (d : Info) → count b (row lib pages d) ≡ 2
    row-count d =
        let name = row_name lib pages d in
        omega (
          arith,
          count-append b (codes "<a href=\"")
              (pages.url_string name ++ (codes "\">" ++ (html_replace name ++ codes "</a>\n"))),
          count-append b (pages.url_string name)
              (codes "\">" ++ (html_replace name ++ codes "</a>\n")),
          count-append b (codes "\">") (html_replace name ++ codes "</a>\n"),
          count-append b (html_replace name) (codes "</a>\n"),
          links name,
          html_replace-count b name markup,
          tags-count b markup,
        )

    rows-count : (ds : List Info) → count b (rows lib pages ds) ≡ 2 * length ds
    unfolding rows count
    rows-count [] = refl
    rows-count (d ∷ ds) =
        omega
          (arith, count-append b (row lib pages d) (rows lib pages ds), row-count d, rows-count ds)

  -- If String of a URL yields no `<`, `>` or `"` and sorting keeps the number of entries, a listing has
  -- as many of these bytes as the empty listing and two for each entry, whatever the entries' names are.
  dir_list-count :
      (b : ℕ)
      → IsMarkup b
      → ((s : Bytes) → count b (pages.url_string s) ≡ 0)
      → ((ds : List Info) → length (pages.sort_by_name ds) ≡ length ds)
      → (w : Header) (f : File) (dirs : List Info) → f.readdir ≡ some dirs
      → (resp : Response) × (dir_list lib pages w f ≡ sends resp)
        × (resp.status ≡ 200)
        × (count b resp.written ≡ count b (page lib pages []) + 2 * length dirs)
  unfolding dir_list rows
  dir_list-count b markup links sorts w f dirs h =
      let sorted = pages.sort_by_name dirs in
      (
        record {
          status = 200;
          header = insert (codes "Content-Type") (codes "text/html; charset=utf-8" ∷ []) w;
          written = page lib pages sorted;
        },
        rw (h) refl,
        refl,
        omega (
          arith,
          count-append b (codes "<pre>\n") (rows lib pages sorted ++ codes "</pre>\n"),
          count-append b (rows lib pages sorted) (codes "</pre>\n"),
          count-append b (codes "<pre>\n") (codes "</pre>\n"),
          rows-count b markup links sorted,
          sorts dirs,
        ),
      )
