-- ===== src/FileServer/Content/Multipart.antt =====
-- The size that a multipart answer declares is the size that it sends.
use ssheasy.Base.{
  ℕ, ◌+◌, ◌≤◌, ◌<◌, ◌^◌, Bool, true, false, ◌≡◌, ◌≢◌, refl, ◌∙◌, ap, sym, List, [], ◌∷◌, ◌++◌, none,
  some, arith, length, drop, All, length-append, length-take, length-drop,
}
use ssheasy.Base.Int.{ℤ, pos, ltb_ℤ}
use ssheasy.Base.Text.{Bytes, codes, bytes_eq, bytes_eq_iff}
use ssheasy.Base.Maps.{insert}
use ssheasy.Base.Decimal.{format_int}
use ssheasy.Http.{Header, Request, get, method_head}
use ssheasy.Range.{HttpRange}
use ssheasy.Range.Bounds.{IsInside}
use ssheasy.Range.Sums.{total, pos_add, sum_ranges_size-total}
use ssheasy.FileServer.Content.{
  Library, PartHeader, Response, sends, heads_size, ranges_mime_size, multipart_body, send_ranges,
  mime_header, slice, with_length, accept_ranges, multipart_type,
}

-- What multipart.Writer promises: boundaries are drawn at random, but they all have one length.
pub record IsSoundLibrary (lib : Library) : Type 0 where
  pub heads :
      (first : Bool) (h : PartHeader)
      → length (lib.part_head lib.boundary first h)
        ≡ length (lib.part_head lib.count_boundary first h)
  pub closes : length (lib.close_line lib.boundary) ≡ length (lib.close_line lib.count_boundary)

get-missing : (h : Header) (k : Bytes) → h k ≡ none → get h k ≡ []
get-missing h k e = rw (ap (λ o. elim o as (λ _. List Bytes) [ none ↦ [] | some vs ↦ vs ]) e) refl

-- Without a Content-Encoding, the declared length is the one given.
pub with_length_lem :
    (lib : Library) (n : ℤ) (h : Header)
    → h (codes "Content-Encoding") ≡ none
    → with_length lib n h (codes "Content-Length") ≡ some (format_int n ∷ [])
unfolding bytes_eq
with_length_lem lib n h e = rw (get-missing h (codes "Content-Encoding") e) refl

module _ (lib : Library) (sound : IsSoundLibrary lib) where
  length-slice : (a n : ℕ) (s : Bytes) → a + n ≤ length s → length (slice (pos a) (pos n) s) ≡ n
  length-slice a n s h = omega (arith, length-take n (drop a s), length-drop a s)

  -- The body of ranges that lie inside the content is whole, and as long as it was counted.
  multipart_body-length :
      (first : Bool) (rs : List HttpRange) (ctype content : Bytes) (size : ℤ)
      (h : All (IsInside (length content)) rs)
      → (body : Bytes) × (multipart_body lib first rs ctype size content ≡ some body)
        × (length body ≡ total (length content) rs h + heads_size lib first rs ctype size)
  unfolding multipart_body heads_size
  multipart_body-length first [] ctype content size h =
      (lib.close_line lib.boundary, refl, omega (arith, sound.closes))
  multipart_body-length first (r ∷ rs) ctype content size (w, h) =
      let (rest, e, l) = multipart_body-length false rs ctype content size h in
      let head = lib.part_head lib.boundary first (mime_header r ctype size) in
      let part = slice (pos w.begin) (pos w.count) content in
      let long : ltb_ℤ (pos (length part)) (pos w.count) ≡ false =
        ground (arith, length-slice w.begin w.count content w.fits) in
      (
        head ++ (part ++ rest),
        rw (e, w.at, w.long) (rw (long) (ground arith)),
        omega (
          arith,
          length-append head (part ++ rest),
          length-append part rest,
          length-slice w.begin w.count content w.fits,
          sound.heads first (mime_header r ctype size),
          l,
        ),
      )

  ranges_mime_size-total :
      (rs : List HttpRange) (ctype : Bytes) (size : ℤ) (n : ℕ) (h : All (IsInside n) rs)
      → total n rs h + heads_size lib true rs ctype size < 2 ^ 63
      → ranges_mime_size lib rs ctype size ≡ pos (total n rs h + heads_size lib true rs ctype size)
  unfolding ranges_mime_size
  ranges_mime_size-total rs ctype size n h l =
      rw (sum_ranges_size-total n rs h (omega arith))
        (pos_add (total n rs h) (heads_size lib true rs ctype size) l)

  -- For two or more ranges inside the content, whose answer fits an int64, without a Content-Encoding, and
  -- with a multipart.Writer whose random boundaries have one length: the answer to a request that is not
  -- HEAD is 206, and its Content-Length is the number of bytes that are written.
  pub send_ranges-multipart :
      (r : Request) (h : Header) (ctype content : Bytes) (ra rb : HttpRange) (rs : List HttpRange)
      (within : All (IsInside (length content)) (ra ∷ rb ∷ rs))
      → r.method ≢ method_head
      → h (codes "Content-Encoding") ≡ none
      → total (length content) (ra ∷ rb ∷ rs) within
          + heads_size lib true (ra ∷ rb ∷ rs) ctype (pos (length content))
        < 2 ^ 63
      → (resp : Response) × (send_ranges lib r h ctype (pos (length content)) content (ra ∷ rb ∷ rs)
          ≡ sends resp)
        × (resp.status ≡ 206)
        × (resp.header (codes "Content-Length")
            ≡ some (format_int (pos (length resp.written)) ∷ []))
  unfolding send_ranges bytes_eq
  send_ranges-multipart r h ctype content ra rb rs within m enc l =
      let size = pos (length content) in
      let ranges = ra ∷ rb ∷ rs in
      let (body, e, n) = multipart_body-length true ranges ctype content size within in
      let declared : ranges_mime_size lib ranges ctype size ≡ pos (length body) =
        ranges_mime_size-total ranges ctype size (length content) within l ∙ ap pos (sym n) in
      let get_head : bytes_eq r.method method_head ≡ false =
        ground (arith, bytes_eq_iff r.method method_head) in
      (
        record {
          status = 206;
          header =
              with_length lib (pos (length body))
                (accept_ranges (insert (codes "Content-Type") (multipart_type lib ∷ []) h));
          written = body;
        },
        rw (e, declared, get_head) refl,
        refl,
        with_length_lem lib (pos (length body))
            (accept_ranges (insert (codes "Content-Type") (multipart_type lib ∷ []) h)) enc,
      )
