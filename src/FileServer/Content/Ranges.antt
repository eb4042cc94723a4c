-- ===== src/FileServer/Content/Ranges.antt =====
-- What serveContent sends for one range, and for none.
use ssheasy.Base.{
  ℕ, zero, suc, ◌+◌, ◌≤◌, ◌<◌, ◌^◌, false, ◌≡◌, ◌≢◌, refl, ◌∙◌, ap, sym, ◌↔◌, List, [], ◌∷◌, Option,
  none, some, arith, length, take, drop, length-take, length-drop, Bool-cases, inl, inr,
}
use ssheasy.Base.Int.{ℤ, pos, ltb_ℤ}
use ssheasy.Base.Text.{Bytes, codes, bytes_eq, bytes_eq_iff}
use ssheasy.Base.Maps.{insert}
use ssheasy.Base.Decimal.{format_int}
use ssheasy.Http.{Header, Request, method_head}
use ssheasy.Range.Bounds.{IsInside}
use ssheasy.Range.Sums.{sum_ranges_size-total}
use ssheasy.Range.{HttpRange, ok, parse_range, sum_ranges_size}
use ssheasy.FileServer.Conditions.{goes_on, check_preconditions, set_last_modified, is_zero_time}
use ssheasy.FileServer.Content.{
  Library, Response, sends, content_range, serve_content, serve_seeker, send_content, send_ranges,
  typed, sniffed, with_length, accept_ranges, is_negative,
}
use ssheasy.FileServer.Content.Multipart.{with_length_lem}

is_negative-pos : (n : ℕ) → is_negative (pos n) ≡ false
is_negative-pos n = ground arith

take_all : (n : ℕ) (s : Bytes) → length s ≤ n → take n s ≡ s
take_all zero [] h = refl
take_all (suc n) [] h = refl
take_all zero (x ∷ s) h = ground arith
take_all (suc n) (x ∷ s) h = ap (λ t. x ∷ t) (take_all n s (omega arith))

reaches_end :
    (a n : ℕ) (s : Bytes) → a + n ≤ length s → (drop a s ≡ take n (drop a s)) ↔ (a + n ≡ length s)
reaches_end a n s h = (
  λ q. omega (arith, ap length q, length-take n (drop a s), length-drop a s),
  λ q. sym (take_all n (drop a s) (omega (arith, length-drop a s))),
)

module _ (lib : Library) where
  abbrev Continues : Header → Request → ℤ → Bytes → Type 0
  Continues w r modtime range =
      check_preconditions lib.parse_time lib.format_time
        (set_last_modified lib.parse_time lib.format_time modtime w) r modtime
      ≡ goes_on range

  set_last_modified-encoding :
      (modtime : ℤ) (w : Header)
      → set_last_modified lib.parse_time lib.format_time modtime w (codes "Content-Encoding")
        ≡ w (codes "Content-Encoding")
  unfolding set_last_modified bytes_eq
  set_last_modified-encoding modtime w = elim (Bool-cases (is_zero_time modtime)) [
    | inl e ↦ rw (e) refl
    | inr e ↦ rw (e) refl
  ]

  -- Behind the preconditions and the content type.
  serve_content-ranges :
      (w : Header) (r : Request) (name content range : Bytes) (modtime : ℤ) (rs : List HttpRange)
      → Continues w r modtime range
      → w (codes "Content-Encoding") ≡ none
      → parse_range range (pos (length content)) ≡ ok rs
      → ltb_ℤ (pos (length content)) (sum_ranges_size rs) ≡ false
      → (h : Header) × (ctype : Bytes) × (h (codes "Content-Encoding") ≡ none)
        × (serve_seeker lib w r name modtime content
            ≡ send_ranges lib r h ctype (pos (length content)) content rs)
  unfolding serve_content send_content bytes_eq
  serve_content-ranges w r name content range modtime rs go enc p s =
      let h = set_last_modified lib.parse_time lib.format_time modtime w in
      let plain : h (codes "Content-Encoding") ≡ none =
        set_last_modified-encoding modtime w ∙ enc in
      rw (go) (by_type h plain (h (codes "Content-Type")))
    where
      by_type :
          (h : Header)
          → h (codes "Content-Encoding") ≡ none
          → (o : Option (List Bytes))
          → (h' : Header) × (ctype : Bytes) × (h' (codes "Content-Encoding") ≡ none)
            × (typed lib r name h range (pos (length content)) content o
                ≡ send_ranges lib r h' ctype (pos (length content)) content rs)
      by_type h e none =
          let ctype = sniffed lib name content in
          (
            insert (codes "Content-Type") (ctype ∷ []) h,
            ctype,
            e,
            rw (is_negative-pos (length content), p, s) refl,
          )
      by_type h e (some []) = (h, [], e, rw (is_negative-pos (length content), p, s) refl)
      by_type h e (some (t ∷ ts)) = (h, t, e, rw (is_negative-pos (length content), p, s) refl)

  -- One range, of `n` bytes from `a` on, inside a content of less than 2^63 bytes, where the preconditions
  -- let the request go on and no Content-Encoding is set. The answer to a request that is not HEAD is 206
  -- and declares `n` bytes; what is written are all bytes from `a` on, which are those of the range exactly
  -- if the range reaches the end.
  pub serve_seeker-single :
      (w : Header) (r : Request) (name content range : Bytes) (modtime : ℤ) (a n : ℕ)
      → Continues w r modtime range
      → w (codes "Content-Encoding") ≡ none
      → parse_range range (pos (length content))
        ≡ ok (record { start = pos a; length = pos n } ∷ [])
      → a + n ≤ length content
      → length content < 2 ^ 63
      → r.method ≢ method_head
      → (resp : Response) × (serve_seeker lib w r name modtime content ≡ sends resp)
        × (resp.status ≡ 206)
        × (resp.header (codes "Content-Length") ≡ some (format_int (pos n) ∷ []))
        × (resp.written ≡ drop a content)
        × ((resp.written ≡ take n (drop a content)) ↔ (a + n ≡ length content))
  unfolding send_ranges bytes_eq
  serve_seeker-single w r name content range modtime a n go enc p inside small m =
      let ra : HttpRange = record { start = pos a; length = pos n } in
      let within : IsInside (length content) ra = record {
        begin = a;
        count = n;
        at = refl;
        long = refl;
        fits = inside;
      } in
      let sum = sum_ranges_size-total (length content) (ra ∷ []) (within, tt) (omega arith) in
      let fits : ltb_ℤ (pos (length content)) (sum_ranges_size (ra ∷ [])) ≡ false =
        ground (arith, sum) in
      let (h, ctype, plain, e) =
        serve_content-ranges w r name content range modtime (ra ∷ []) go enc p fits in
      let get_head : bytes_eq r.method method_head ≡ false =
        ground (arith, bytes_eq_iff r.method method_head) in
      (
        record {
          status = 206;
          header = with_length lib (pos n) (
              accept_ranges
                (insert (codes "Content-Range") (content_range ra (pos (length content)) ∷ []) h));
          written = drop a content;
        },
        e ∙ rw (is_negative-pos a, get_head) refl,
        refl,
        with_length_lem lib (pos n)
            (accept_ranges
              (insert (codes "Content-Range") (content_range ra (pos (length content)) ∷ []) h))
            plain,
        refl,
        reaches_end a n content inside,
      )

  -- Where the preconditions let the request go on without a range and no Content-Encoding is set, the
  -- answer to a request that is not HEAD is 200 with the content, and declares its length.
  pub serve_seeker-whole :
      (w : Header) (r : Request) (name content range : Bytes) (modtime : ℤ)
      → Continues w r modtime range
      → w (codes "Content-Encoding") ≡ none
      → range ≡ []
      → r.method ≢ method_head
      → (resp : Response) × (serve_seeker lib w r name modtime content ≡ sends resp)
        × (resp.status ≡ 200)
        × (resp.written ≡ content)
        × (resp.header (codes "Content-Length") ≡ some (format_int (pos (length content)) ∷ []))
  unfolding send_ranges bytes_eq parse_range
  serve_seeker-whole w r name content range modtime go enc none_given m =
      let p : parse_range range (pos (length content)) ≡ ok [] = rw (none_given) refl in
      let sum = sum_ranges_size-total (length content) [] tt (omega arith) in
      let fits : ltb_ℤ (pos (length content)) (sum_ranges_size []) ≡ false = ground (arith, sum) in
      let (h, ctype, plain, e) =
        serve_content-ranges w r name content range modtime [] go enc p fits in
      let get_head : bytes_eq r.method method_head ≡ false =
        ground (arith, bytes_eq_iff r.method method_head) in
      (
        record {
          status = 200;
          header = with_length lib (pos (length content)) (accept_ranges h);
          written = content;
        },
        e ∙ rw (get_head) refl,
        refl,
        refl,
        with_length_lem lib (pos (length content)) (accept_ranges h) plain,
      )
