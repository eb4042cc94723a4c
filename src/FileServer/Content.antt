-- ===== src/FileServer/Content.antt =====
-- proxy/fileserver.go: serveContent and ServeContent, with the sizes and headers of byte ranges. The
-- content is a seekable text of fixed bytes; MIME types, multipart.Writer and http.Error are the
-- library's, and parameters.
pub mod Multipart
pub mod Ranges
use ssheasy.Base.{
  ℕ, ◌+◌, Bool, true, false, List, [], ◌∷◌, ◌++◌, Option, none, some, if◌then◌else◌, ◌==◌, length,
  take, drop, reverse, not,
}
use ssheasy.Base.Int.{ℤ, pos, negsuc, pos_part, ◌+ℤ◌, ◌-ℤ◌, ltb_ℤ, wrap64}
use ssheasy.Base.Text.{Bytes, codes, bytes_eq}
use ssheasy.Base.Maps.{insert}
use ssheasy.Base.Decimal.{format_int}
use ssheasy.Http.{Header, Request, get, method_head}
use ssheasy.Range.{
  HttpRange, RangeError, invalid_range, no_overlap, RangeResult, ok, err, parse_range,
  sum_ranges_size,
}
use ssheasy.FileServer.Conditions.{
  Verdict, goes_on, answered, aborts, ran_out, check_preconditions, set_last_modified,
}

-- A response: its status, its headers, and the bytes that the handler gave to Write.
pub record Response : Type 0 where
  pub status : ℕ
  pub header : Header
  pub written : Bytes

pub data Served : Type 0 where
  sends : Response → Served
  panics out_of_fuel : Served

-- The headers of one part of a multipart body.
pub record PartHeader : Type 0 where
  pub content_range : Bytes
  pub content_type : Bytes

-- What serveContent takes from the library. `part_head boundary first h` are the bytes of CreatePart
-- and `close_line` those of Close; a writer's boundary is drawn at random, `boundary` for the body and
-- `count_boundary` for the count.
pub record Library : Type 0 where
  pub parse_time : Bytes → Option ℤ
  pub format_time : ℤ → Bytes
  pub type_by_extension : Bytes → Bytes
  pub detect_content_type : Bytes → Bytes
  pub http_error : Bytes → ℕ → Header → Response
  pub part_head : Bytes → Bool → PartHeader → Bytes
  pub close_line : Bytes → Bytes
  pub boundary : Bytes
  pub count_boundary : Bytes

-- filepath.Ext, from the end of the path.
ext_back : Bytes → Bytes → Bytes
ext_back acc [] = []
ext_back acc (c ∷ s) =
    let rest = ext_back (c ∷ acc) s in if c == b'/' then [] else if c == b'.' then c ∷ acc else rest

unfoldable pub ext : Bytes → Bytes
unfolding ext_back
ext path = ext_back [] (reverse path)

-- httpRange.contentRange
unfoldable pub content_range : HttpRange → ℤ → Bytes
content_range r size =
    codes "bytes "
    ++ (format_int r.start
        ++ (codes "-"
            ++ (format_int (wrap64 (r.start +ℤ r.length -ℤ pos 1))
                ++ (codes "/" ++ format_int size))))

-- httpRange.mimeHeader
abbrev pub mime_header : HttpRange → Bytes → ℤ → PartHeader
mime_header r ctype size = record { content_range = content_range r size; content_type = ctype }

abbrev pub accept_ranges : Header → Header
accept_ranges h = insert (codes "Accept-Ranges") (codes "bytes" ∷ []) h

-- The bytes of content from a position on, as far as a copy of `n` bytes goes.
abbrev pub slice : ℤ → ℤ → Bytes → Bytes
slice start n content = take (pos_part n) (drop (pos_part start) content)

abbrev pub is_negative : ℤ → Bool
is_negative z = ltb_ℤ z (pos 0)

module _ (lib : Library) where
  -- The bytes that countingWriter counts: the parts' heads and the closing line.
  unfoldable pub heads_size : Bool → List HttpRange → Bytes → ℤ → ℕ
  heads_size first [] ctype size = length (lib.close_line lib.count_boundary)
  heads_size first (r ∷ rs) ctype size =
      length (lib.part_head lib.count_boundary first (mime_header r ctype size))
      + heads_size false rs ctype size

  -- rangesMIMESize
  unfoldable pub ranges_mime_size : List HttpRange → Bytes → ℤ → ℤ
  ranges_mime_size rs ctype size =
      wrap64 (sum_ranges_size rs +ℤ pos (heads_size true rs ctype size))

  -- What the goroutine writes to the pipe; `none` is the error of a Seek in front of the content. A
  -- copy that ends early closes the pipe with io.EOF, which ReadAll takes for the end.
  unfoldable pub multipart_body : Bool → List HttpRange → Bytes → ℤ → Bytes → Option Bytes
  multipart_body first [] ctype size content = some (lib.close_line lib.boundary)
  multipart_body first (r ∷ rs) ctype size content =
      let rest = multipart_body false rs ctype size content in
      let head = lib.part_head lib.boundary first (mime_header r ctype size) in
      let part = slice r.start r.length content in
      if is_negative r.start
      then none
      else if ltb_ℤ (pos (length part)) r.length
      then some (head ++ part)
      else elim rest [ none ↦ none | some body ↦ some (head ++ (part ++ body)) ]

  abbrev with_length : ℤ → Header → Header
  with_length send_size h =
      if bytes_eq (get h (codes "Content-Encoding")) []
      then insert (codes "Content-Length") (format_int send_size ∷ []) h
      else h

  -- The end of serveContent: ReadAll of all that the reader has, whatever sendSize is.
  abbrev finish : Request → ℕ → Header → Option Bytes → Served
  finish r code h body =
      if bytes_eq r.method method_head
      then sends (record { status = code; header = h; written = [] })
      else elim body [
        | none ↦ panics
        | some b ↦ sends (record { status = code; header = h; written = b })
      ]

  abbrev single_range : Request → Header → ℤ → Bytes → HttpRange → Served
  single_range r h size content ra =
      if is_negative ra.start
      then sends (lib.http_error (codes "negative position") 416 h)
      else finish r 206
          (with_length ra.length
            (accept_ranges (insert (codes "Content-Range") (content_range ra size ∷ []) h)))
          (some (drop (pos_part ra.start) content))

  abbrev whole : Request → Header → ℤ → Bytes → Served
  whole r h size content = finish r 200 (with_length size (accept_ranges h)) (some content)

  abbrev multipart_type : Bytes
  multipart_type = codes "multipart/byteranges; boundary=" ++ lib.boundary

  -- The switch on the number of ranges.
  unfoldable pub send_ranges : Request → Header → Bytes → ℤ → Bytes → List HttpRange → Served
  send_ranges r h ctype size content [] = whole r h size content
  send_ranges r h ctype size content (ra ∷ []) = single_range r h size content ra
  send_ranges r h ctype size content (ra ∷ rb ∷ rs) =
      let ranges = ra ∷ rb ∷ rs in
      finish r 206
        (with_length (ranges_mime_size ranges ctype size)
          (accept_ranges (insert (codes "Content-Type") (multipart_type ∷ []) h)))
        (multipart_body true ranges ctype size content)

  abbrev range_error : RangeError → Bytes
  range_error invalid_range = codes "invalid range"
  range_error no_overlap = codes "invalid range: failed to overlap"

  abbrev error_header : RangeError → ℤ → Header → Header
  error_header invalid_range size h = h
  error_header no_overlap size h =
      insert (codes "Content-Range") ((codes "bytes */" ++ format_int size) ∷ []) h

  -- Behind parseRange. More bytes than the content has are not sent in ranges.
  abbrev with_ranges : Request → Header → Bytes → ℤ → Bytes → RangeResult → Served
  with_ranges r h ctype size content (err e) =
      sends (lib.http_error (range_error e) 416 (error_header e size h))
  with_ranges r h ctype size content (ok rs) =
      send_ranges r h ctype size content (if ltb_ℤ size (sum_ranges_size rs) then [] else rs)

  -- Behind the content type.
  unfoldable pub send_content : Request → Header → Bytes → Bytes → ℤ → Bytes → Served
  send_content r h ctype range size content =
      if is_negative size
      then finish r 200 h (some content)
      else with_ranges r h ctype size content (parse_range range size)

  abbrev sniffed : Bytes → Bytes → Bytes
  sniffed name content =
      let by_name = lib.type_by_extension (ext name) in
      if bytes_eq by_name [] then lib.detect_content_type (take 512 content) else by_name

  abbrev typed : Request → Bytes → Header → Bytes → ℤ → Bytes → Option (List Bytes) → Served
  typed r name h range size content none =
      let ctype = sniffed name content in
      send_content r (insert (codes "Content-Type") (ctype ∷ []) h) ctype range size content
  typed r name h range size content (some []) = send_content r h [] range size content
  typed r name h range size content (some (t ∷ ts)) = send_content r h t range size content

  abbrev judged : Request → Bytes → Header → ℤ → Bytes → Verdict → Served
  judged r name h size content aborts = panics
  judged r name h size content ran_out = out_of_fuel
  judged r name h size content (answered code h') =
      sends (record { status = code; header = h'; written = [] })
  judged r name h size content (goes_on range) =
      typed r name h range size content (h (codes "Content-Type"))

  -- serveContent, where `size` is what sizeFunc returns.
  unfoldable pub serve_content : Header → Request → Bytes → ℤ → ℤ → Bytes → Served
  serve_content w r name modtime size content =
      let h = set_last_modified lib.parse_time lib.format_time modtime w in
      judged r name h size content (check_preconditions lib.parse_time lib.format_time h r modtime)

  -- ServeContent: the size is where the end of the content is.
  abbrev pub serve_seeker : Header → Request → Bytes → ℤ → Bytes → Served
  serve_seeker w r name modtime content =
      serve_content w r name modtime (pos (length content)) content
