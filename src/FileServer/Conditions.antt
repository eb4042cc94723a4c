-- ===== src/FileServer/Conditions.antt =====
-- proxy/fileserver.go: the preconditions of a request, checkIfMatch to checkPreconditions. Times are in
-- nanoseconds from the year 1; http.ParseTime and Time.Format are the library's, and parameters.
pub mod Lists
pub mod NoneMatch
pub mod Ends
use ssheasy.Base.{
  ℕ, zero, suc, ◌*◌, ◌^◌, Bool, true, false, ◌&&◌, ◌||◌, not, List, [], ◌∷◌, Option, none, some,
  if◌then◌else◌, ◌==◌, length,
}
use ssheasy.Base.Int.{ℤ, pos, negsuc, pos_part, neg_part, ltb_ℤ, ◌+ℤ◌}
use ssheasy.Base.Text.{Bytes, codes, bytes_eq, trim_string}
use ssheasy.Base.Maps.{insert, erase}
use ssheasy.Http.{Header, Request, get, method_get, method_head}
use ssheasy.Auth.Session.{unix}
use ssheasy.FileServer.Etag.{scan_etag, etag_strong_match, etag_weak_match}

-- condResult
pub data CondResult : Type 0 where
  cond_none cond_true cond_false : CondResult

-- What a check comes to: a result, a panic (which ends the request), or the fuel of its loop used up.
pub data Checked : Type 0 where
  result : CondResult → Checked
  panics out_of_fuel : Checked

-- One round of checkIfMatch, on the trimmed text; `go` runs the next one.
abbrev pub match_turn : (Bytes → Checked) → Bytes → Bytes → Checked
match_turn go etag [] = result cond_false
match_turn go etag (c ∷ s) =
    if c == b',' then go s else if c == b'*' then result cond_true else elim (scan_etag (c ∷ s)) [
      | none ↦ result cond_false
      | some (tag, remain) ↦ if etag_strong_match tag etag then result cond_true else go remain
    ]

unfoldable pub match_loop : ℕ → Bytes → Bytes → Checked
match_loop zero etag im = out_of_fuel
match_loop (suc n) etag im = match_turn (match_loop n etag) etag (trim_string im)

-- checkIfMatch, from the header and the response's Etag
unfoldable pub check_if_match : Bytes → Bytes → Checked
check_if_match im etag =
    if bytes_eq im [] then result cond_none else match_loop (suc (length im)) etag im

-- Behind the comma, which is dropped without another round: buf[0] of an empty text panics.
abbrev pub none_match_at : (Bytes → Checked) → Bytes → Bytes → Checked
none_match_at go etag [] = panics
none_match_at go etag (c ∷ s) = if c == b'*' then result cond_false else elim (scan_etag (c ∷ s)) [
  | none ↦ result cond_true
  | some (tag, remain) ↦ if etag_weak_match tag etag then result cond_false else go remain
]

abbrev pub none_match_turn : (Bytes → Checked) → Bytes → Bytes → Checked
none_match_turn go etag [] = result cond_true
none_match_turn go etag (c ∷ s) =
    if c == b',' then none_match_at go etag s else none_match_at go etag (c ∷ s)

unfoldable pub none_match_loop : ℕ → Bytes → Bytes → Checked
none_match_loop zero etag inm = out_of_fuel
none_match_loop (suc n) etag inm = none_match_turn (none_match_loop n etag) etag (trim_string inm)

-- checkIfNoneMatch
unfoldable pub check_if_none_match : Bytes → Bytes → Checked
check_if_none_match inm etag =
    if bytes_eq inm [] then result cond_none else none_match_loop (suc (length inm)) etag inm

-- The zero Time, and time.Unix(0, 0).
abbrev pub zero_time : ℤ
zero_time = pos 0

abbrev pub unix_epoch_time : ℤ
unix_epoch_time = pos (62135596800 * 10 ^ 9)

abbrev pub time_eq : ℤ → ℤ → Bool
time_eq a b = not (ltb_ℤ a b) && not (ltb_ℤ b a)

-- isZeroTime
unfoldable pub is_zero_time : ℤ → Bool
is_zero_time t = time_eq t zero_time || time_eq t unix_epoch_time

-- modtime.Before(t.Add(1 * time.Second))
abbrev pub not_after : ℤ → ℤ → Bool
not_after modtime t = ltb_ℤ modtime (t +ℤ pos (10 ^ 9))

-- The header of a response before it is sent, and what checkPreconditions makes of it.
pub data Verdict : Type 0 where
  -- the request goes on, with this Range header
  goes_on : Bytes → Verdict
  -- a status was sent, with these headers
  answered : ℕ → Header → Verdict
  aborts ran_out : Verdict

abbrev pub etag_of : Header → Bytes
etag_of h = get h (codes "Etag")

module _ (parse_time : Bytes → Option ℤ) (format_time : ℤ → Bytes) where
  abbrev unmodified : ℤ → Option ℤ → CondResult
  unmodified modtime none = cond_none
  unmodified modtime (some t) = if not_after modtime t then cond_true else cond_false

  -- checkIfUnmodifiedSince
  unfoldable pub check_if_unmodified_since : Request → ℤ → CondResult
  check_if_unmodified_since r modtime =
      let ius = get r.header (codes "If-Unmodified-Since") in
      if bytes_eq ius [] || is_zero_time modtime
      then cond_none
      else unmodified modtime (parse_time ius)

  abbrev modified : ℤ → Option ℤ → CondResult
  modified modtime none = cond_none
  modified modtime (some t) = if not_after modtime t then cond_false else cond_true

  abbrev pub is_get_or_head : Request → Bool
  is_get_or_head r = bytes_eq r.method method_get || bytes_eq r.method method_head

  -- checkIfModifiedSince
  unfoldable pub check_if_modified_since : Request → ℤ → CondResult
  check_if_modified_since r modtime =
      let ims = get r.header (codes "If-Modified-Since") in
      if not (is_get_or_head r)
      then cond_none
      else if bytes_eq ims [] || is_zero_time modtime
      then cond_none
      else modified modtime (parse_time ims)

  abbrev same_second : ℤ → Option ℤ → CondResult
  same_second modtime none = cond_false
  same_second modtime (some t) = if time_eq (unix t) (unix modtime) then cond_true else cond_false

  abbrev range_tag : Header → Bytes → ℤ → Option (Bytes × Bytes) → CondResult
  range_tag w ir modtime (some (tag, remain)) =
      if etag_strong_match tag (etag_of w) then cond_true else cond_false
  range_tag w ir modtime none =
      if time_eq modtime zero_time then cond_false else same_second modtime (parse_time ir)

  -- checkIfRange
  unfoldable pub check_if_range : Header → Request → ℤ → CondResult
  check_if_range w r modtime =
      let ir = get r.header (codes "If-Range") in
      if not (is_get_or_head r)
      then cond_none
      else if bytes_eq ir []
      then cond_none
      else range_tag w ir modtime (scan_etag ir)

  -- setLastModified
  unfoldable pub set_last_modified : ℤ → Header → Header
  set_last_modified modtime w =
      if is_zero_time modtime
      then w
      else insert (codes "Last-Modified") (format_time modtime ∷ []) w

  -- writeNotModified
  unfoldable pub write_not_modified : Header → Verdict
  write_not_modified w =
      let h = erase (codes "Content-Length") (erase (codes "Content-Type") w) in
      answered 304 (if bytes_eq (etag_of h) [] then h else erase (codes "Last-Modified") h)

  abbrev if_range : Bytes → CondResult → Verdict
  if_range range cond_false = goes_on []
  if_range range cond_true = goes_on range
  if_range range cond_none = goes_on range

  -- The end of checkPreconditions: the Range header, unless If-Range says no.
  abbrev range_header : Header → Request → ℤ → Verdict
  range_header w r modtime =
      let range = get r.header (codes "Range") in
      if bytes_eq range [] then goes_on range else if_range range (check_if_range w r modtime)

  abbrev if_modified : Header → Request → ℤ → CondResult → Verdict
  if_modified w r modtime cond_false = write_not_modified w
  if_modified w r modtime cond_true = range_header w r modtime
  if_modified w r modtime cond_none = range_header w r modtime

  -- Behind checkIfNoneMatch.
  abbrev then_modified : Header → Request → ℤ → Checked → Verdict
  then_modified w r modtime panics = aborts
  then_modified w r modtime out_of_fuel = ran_out
  then_modified w r modtime (result cond_false) =
      if is_get_or_head r then write_not_modified w else answered 412 w
  then_modified w r modtime (result cond_none) =
      if_modified w r modtime (check_if_modified_since r modtime)
  then_modified w r modtime (result cond_true) = range_header w r modtime

  abbrev none_match_of : Header → Request → Checked
  none_match_of w r = check_if_none_match (get r.header (codes "If-None-Match")) (etag_of w)

  abbrev failed_or_on : Header → Request → ℤ → CondResult → Verdict
  failed_or_on w r modtime cond_false = answered 412 w
  failed_or_on w r modtime cond_true = then_modified w r modtime (none_match_of w r)
  failed_or_on w r modtime cond_none = then_modified w r modtime (none_match_of w r)

  -- Behind checkIfMatch.
  abbrev then_unmodified : Header → Request → ℤ → Checked → Verdict
  then_unmodified w r modtime panics = aborts
  then_unmodified w r modtime out_of_fuel = ran_out
  then_unmodified w r modtime (result cond_none) =
      failed_or_on w r modtime (check_if_unmodified_since r modtime)
  then_unmodified w r modtime (result cond_true) = failed_or_on w r modtime cond_true
  then_unmodified w r modtime (result cond_false) = failed_or_on w r modtime cond_false

  -- checkPreconditions, under the headers of the response so far.
  unfoldable pub check_preconditions : Header → Request → ℤ → Verdict
  check_preconditions w r modtime =
      then_unmodified w r modtime (check_if_match (get r.header (codes "If-Match")) (etag_of w))
