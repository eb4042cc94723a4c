-- ===== src/Mux/Header.antt =====
-- web/mux.go: writeMuxHeader, and proxy/mux.go: readMuxHeader.
pub mod Laws
use ssheasy.Base.{
  ℕ, ◌+◌, ◌*◌, ◌/◌, ◌%◌, ◌^◌, Bool, ◌||◌, List, [], ◌∷◌, ◌++◌, Option, none, some, if◌then◌else◌,
  ◌==◌, ltb, length, take, drop,
}
use ssheasy.Base.Int.{ℤ}
use ssheasy.Base.Text.{Bytes}

-- json.Marshal and json.Unmarshal at the struct {Host string; Port int}.
pub record Json : Type 0 where
  pub marshal : Bytes → ℤ → Option Bytes
  pub unmarshal : Bytes → Option (Bytes × ℤ)

-- uint16(len(hdr)), and its two bytes
abbrev pub uint16 : ℕ → ℕ
uint16 n = n % 2 ^ 16

abbrev pub put_uint16 : ℕ → Bytes
put_uint16 n = n / 256 ∷ n % 256 ∷ []

abbrev pub big_endian : ℕ → ℕ → ℕ
big_endian a b = a * 256 + b

-- What readMuxHeader returns: an error, or the target with the input behind the header.
pub data HeaderResult : Type 0 where
  bad_header : HeaderResult
  header : Bytes → ℤ → Bytes → HeaderResult

module _ (json : Json) where
  -- writeMuxHeader: the bytes that go to the stream; `none` is an error of json.Marshal.
  unfoldable pub write_mux_header : Bytes → ℤ → Option Bytes
  write_mux_header host port = elim (json.marshal host port) [
    | none ↦ none
    | some hdr ↦ some (put_uint16 (uint16 (length hdr)) ++ hdr)
  ]

  abbrev decoded : Option (Bytes × ℤ) → Bytes → HeaderResult
  decoded none rest = bad_header
  decoded (some (host, port)) rest = header host port rest

  -- The text behind the length.
  unfoldable pub read_body : ℕ → Bytes → HeaderResult
  read_body n inp =
      if n == 0 || ltb 4096 n
      then bad_header
      else if ltb (length inp) n
      then bad_header
      else decoded (json.unmarshal (take n inp)) (drop n inp)

  -- readMuxHeader
  unfoldable pub read_mux_header : Bytes → HeaderResult
  read_mux_header [] = bad_header
  read_mux_header (a ∷ []) = bad_header
  read_mux_header (a ∷ b ∷ inp) = read_body (big_endian a b) inp
