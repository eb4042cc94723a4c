-- ===== src/Mux/Header/Laws.antt =====
-- The two ends of a stream agree on its header.
use ssheasy.Base.{
  ℕ, ◌/◌, ◌%◌, ◌≤◌, ◌<◌, ◌≡◌, refl, ◌++◌, none, some, arith, length, length-append,
  take-length-append, drop-length-append,
}
use ssheasy.Base.Int.{ℤ}
use ssheasy.Base.Text.{Bytes}
use ssheasy.Mux.Header.{
  Json, bad_header, header, uint16, put_uint16, big_endian, write_mux_header, read_body,
  read_mux_header,
}

-- The length on the wire is the length of the text modulo 2 ^ 16.
pub big_endian-put_uint16 : (n : ℕ) → big_endian (uint16 n / 256) (uint16 n % 256) ≡ n % 65536
big_endian-put_uint16 n = omega arith

module _ (json : Json) where
  read-write :
      (host hdr later : Bytes) (port : ℤ)
      → json.marshal host port ≡ some hdr
      → (wire : Bytes) × (write_mux_header json host port ≡ some wire)
        × (read_mux_header json (wire ++ later)
            ≡ read_body json (length hdr % 65536) (hdr ++ later))
  unfolding write_mux_header read_mux_header
  read-write host hdr later port e = (
    put_uint16 (uint16 (length hdr)) ++ hdr,
    rw (e, write_mux_header) refl,
    rw (big_endian-put_uint16 (length hdr)) refl,
  )

  read_body-exact :
      (hdr later : Bytes)
      → 1 ≤ length hdr
      → length hdr ≤ 4096
      → read_body json (length hdr) (hdr ++ later) ≡ (elim (json.unmarshal hdr) [
        | none ↦ bad_header
        | some (host, port) ↦ header host port later
      ])
  unfolding read_body
  read_body-exact hdr later l h =
      ground
        (arith, length-append hdr later, take-length-append hdr later, drop-length-append hdr later)

  -- A header whose text has at most 4096 bytes arrives: the proxy gets the host and the port, and
  -- leaves every byte behind the header to the relay.
  pub read_mux_header-write_mux_header :
      (host hdr later : Bytes) (port : ℤ)
      → json.marshal host port ≡ some hdr
      → json.unmarshal hdr ≡ some (host, port)
      → 1 ≤ length hdr
      → length hdr ≤ 4096
      → (wire : Bytes) × (write_mux_header json host port ≡ some wire)
        × (read_mux_header json (wire ++ later) ≡ header host port later)
  read_mux_header-write_mux_header host hdr later port e d l h =
      let (wire, w, r) = read-write host hdr later port e in
      let small : length hdr % 65536 ≡ length hdr = omega arith in
      (wire, w, rw (r, small, read_body-exact hdr later l h, d) refl)

  -- A text of 4097 to 65535 bytes is sent without an error, and refused whatever follows it.
  read_mux_header-refuses :
      (host hdr later : Bytes) (port : ℤ)
      → json.marshal host port ≡ some hdr
      → 4096 < length hdr
      → length hdr < 65536
      → (wire : Bytes) × (write_mux_header json host port ≡ some wire)
        × (read_mux_header json (wire ++ later) ≡ bad_header)
  unfolding read_body
  read_mux_header-refuses host hdr later port e l h =
      let (wire, w, r) = read-write host hdr later port e in
      let small : length hdr % 65536 ≡ length hdr = omega arith in
      (wire, w, rw (r, small) (ground arith))
