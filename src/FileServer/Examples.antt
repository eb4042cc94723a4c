-- ===== src/FileServer/Examples.antt =====
-- The theorems about the file server at concrete requests and files.
use ssheasy.Base.{
  if◌then◌else◌, ◌+◌, true, false, ◌≡◌, ◌≢◌, ◌↔◌, refl, ap, [], ◌∷◌, ◌++◌, none, some, arith,
  length, take, drop,
}
use ssheasy.Base.Int.{pos, wrap64, ◌+ℤ◌, ◌-ℤ◌}
use ssheasy.Base.Text.{has_prefix, split, trim_space, cut, Bytes, codes, bytes_eq}
use ssheasy.Base.Decimal.{format_int, parse_int}
use ssheasy.Base.Maps.{empty}
use ssheasy.Http.{Header, Request, method_get, method_head}
use ssheasy.Range.{HttpRange, parse_range, collect, turn, start_range, bounded_range}
use ssheasy.FileServer.Etag.Laws.{EntityTag, print}
use ssheasy.FileServer.Conditions.{
  result, cond_false, check_if_match, check_if_none_match, check_preconditions, set_last_modified,
  check_if_unmodified_since, check_if_modified_since, check_if_range,
}
use ssheasy.FileServer.Conditions.Lists.{more_tags}
use ssheasy.FileServer.Conditions.NoneMatch.{check_if_none_match-list}
use ssheasy.FileServer.Conditions.Ends.{IsLawful, check_preconditions-IsLawful}
use ssheasy.FileServer.Content.{Library, Response, sends, send_ranges, heads_size, serve_seeker}
use ssheasy.FileServer.Content.Multipart.{send_ranges-multipart}
use ssheasy.FileServer.Content.Ranges.{serve_seeker-single, serve_seeker-whole}
use ssheasy.FileServer.Dir.{Info, Os, fails, gives, other}
use ssheasy.FileServer.Files.{Pages}

abbrev tag_a : EntityTag
tag_a = record { weak = false; opaque = codes "a" }

abbrev weak_b : EntityTag
weak_b = record { weak = true; opaque = codes "b" }

abbrev tag_b : EntityTag
tag_b = record { weak = false; opaque = codes "b" }

check_if_none_match-list_example :
    check_if_none_match (print tag_a ++ more_tags (weak_b ∷ [])) (print tag_b) ≡ result cond_false
unfolding bytes_eq
check_if_none_match-list_example =
    check_if_none_match-list tag_a tag_b (weak_b ∷ []) ((refl, tt), ((refl, tt), tt))

-- A library whose parts have a head of their first letter and their boundary, and no dates.
abbrev lib : Library
lib = record {
  parse_time = λ s. none;
  format_time = λ t. codes "today";
  type_by_extension = λ e. codes "text/plain";
  detect_content_type = λ s. codes "text/plain";
  http_error = λ message code h. record { status = code; header = h; written = message };
  part_head = λ boundary first h. codes "--" ++ boundary;
  close_line = λ boundary. codes "--" ++ (boundary ++ codes "--");
  boundary = codes "x";
  count_boundary = codes "y";
}

abbrev asked_for : Bytes → Header → Request
asked_for path h = record {
  method = method_get;
  path = path;
  raw_query = [];
  header = h;
  remote_addr = codes "10.0.0.1:1024";
  cookie = λ name. none;
  form_value = λ name. [];
}

abbrev ranged : Bytes → Header
ranged range key = if bytes_eq key (codes "Range") then some (range ∷ []) else none

abbrev text : Bytes
text = codes "hello"

abbrev at_end : HttpRange
at_end = record { start = pos 3; length = pos 2 }

abbrev at_start : HttpRange
at_start = record { start = pos 0; length = pos 2 }

check_preconditions-IsLawful_example : IsLawful empty (asked_for (codes "/a") empty) (
    check_preconditions lib.parse_time lib.format_time empty (asked_for (codes "/a") empty) (pos 7))
check_preconditions-IsLawful_example =
    check_preconditions-IsLawful lib.parse_time lib.format_time empty (asked_for (codes "/a") empty)
      (pos 7)

get_ne_head : method_get ≢ method_head
get_ne_head h = let e : length method_get ≡ length method_head = ap length h in omega arith

send_ranges-multipart_example :
    (resp : Response) × (send_ranges lib
        (asked_for (codes "/a") empty)
        empty
        (codes "text/plain")
        (pos 5)
        text
        (at_end ∷ at_start ∷ [])
      ≡ sends resp)
    × (resp.status ≡ 206)
    × (resp.header (codes "Content-Length") ≡ some (format_int (pos (length resp.written)) ∷ []))
unfolding heads_size
send_ranges-multipart_example =
    send_ranges-multipart lib (record { heads = λ first h. refl; closes = refl })
      (asked_for (codes "/a") empty) empty (codes "text/plain") text at_end at_start []
      (
        record { begin = 3; count = 2; at = refl; long = refl; fits = omega arith },
        (record { begin = 0; count = 2; at = refl; long = refl; fits = omega arith }, tt),
      )
      get_ne_head refl (omega arith)

serve_seeker-single_example :
    (resp : Response) × (serve_seeker lib empty
        (asked_for (codes "/a") (ranged (codes "bytes=0-1")))
        (codes "a")
        (pos 0)
        text
      ≡ sends resp)
    × (resp.status ≡ 206)
    × (resp.header (codes "Content-Length") ≡ some (format_int (pos 2) ∷ []))
    × (resp.written ≡ drop 0 text)
    × ((resp.written ≡ take 2 (drop 0 text)) ↔ (0 + 2 ≡ length text))
unfolding parse_range check_preconditions set_last_modified check_if_match bytes_eq
    check_if_unmodified_since check_if_none_match check_if_modified_since check_if_range has_prefix
    collect split turn trim_space cut start_range parse_int bounded_range wrap64 ◌+ℤ◌ ◌-ℤ◌
serve_seeker-single_example =
    serve_seeker-single lib empty (asked_for (codes "/a") (ranged (codes "bytes=0-1"))) (codes "a")
      text (codes "bytes=0-1") (pos 0) 0 2 refl refl refl (omega arith) (omega arith) get_ne_head

serve_seeker-whole_example :
    (resp : Response) × (serve_seeker lib empty
        (asked_for (codes "/a") empty)
        (codes "a")
        (pos 0)
        text
      ≡ sends resp)
    × (resp.status ≡ 200)
    × (resp.written ≡ text)
    × (resp.header (codes "Content-Length") ≡ some (format_int (pos (length text)) ∷ []))
unfolding check_preconditions set_last_modified check_if_match bytes_eq check_if_unmodified_since
    check_if_none_match check_if_modified_since check_if_range
serve_seeker-whole_example =
    serve_seeker-whole lib empty (asked_for (codes "/a") empty) (codes "a") text [] (pos 0) refl
      refl refl get_ne_head

abbrev os : Os
os = record {
  open_file = λ path. fails other;
  stat = λ path. gives (record { name = path; size = pos 0; mod_time = pos 0; is_dir = false });
}

abbrev pages : Pages
pages = record { sort_by_name = λ ds. ds; url_string = λ s. [] }

abbrev tag_named : Info
tag_named = record { name = codes "<b>"; size = pos 1; mod_time = pos 0; is_dir = false }
