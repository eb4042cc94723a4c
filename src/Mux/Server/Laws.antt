-- ===== src/Mux/Server/Laws.antt =====
-- Which streams reach a target, and what their clients are told.
use ssheasy.Base.{
  ℕ, ◌≤◌, length, true, false, ◌≡◌, inl, inr, List, [], ◌∷◌, ◌++◌, Option, none, some, arith,
  Bool-cases,
}
use ssheasy.Base.Int.{ℤ}
use ssheasy.Base.Text.{Bytes}
use ssheasy.Base.Decimal.{format_int}
use ssheasy.Access.Targets.{Targets, is_allowed_targer}
use ssheasy.Access.Targets.Laws.{IsIn, is_allowed_targer_iff}
use ssheasy.Mux.Header.{Json, write_mux_header}
use ssheasy.Mux.Header.Laws.{read_mux_header-write_mux_header}
use ssheasy.Mux.Server.{
  Action, write_status, dial, relay, join_host_port, Network, handle_mux_stream,
}

-- The first byte that the client gets.
abbrev pub status : List Action → Option ℕ
status [] = none
status (write_status b ∷ rest) = some b
status (_ ∷ rest) = status rest

-- Some connection attempt is made.
abbrev pub Dials : List Action → Type 0
Dials [] = ⊥
Dials (dial a ∷ rest) = Unit
Dials (_ ∷ rest) = Dials rest

-- The bytes that the relay starts with.
abbrev pub relayed : List Action → Option Bytes
relayed [] = none
relayed (relay s ∷ rest) = some s
relayed (_ ∷ rest) = relayed rest

module _ (json : Json) (net : Network) where
  -- A stream that a client opens with its own writeMuxHeader, where the text of the header has at most
  -- 4096 bytes. A listed target is not dialled, and the status is 0. An open target is dialled; if it
  -- connects, the status is 1 and the relay gets exactly the bytes behind the header, and else the
  -- status is 0 and nothing is relayed.
  pub handle_mux_stream-write_mux_header :
      (src host hdr later : Bytes) (port : ℤ) (t : Targets)
      → json.marshal host port ≡ some hdr
      → json.unmarshal hdr ≡ some (host, port)
      → 1 ≤ length hdr
      → length hdr ≤ 4096
      → net.takes_status ≡ true
      → (wire : Bytes) × (write_mux_header json host port ≡ some wire)
        × (let done = (handle_mux_stream json net src (wire ++ later) t).0 in
            (IsIn host t.blacklisted_targets
              → (status done ≡ some 0) × (¬ Dials done) × (relayed done ≡ none))
            × (¬ IsIn host t.blacklisted_targets
                → Dials done
                  × (net.connects (join_host_port host (format_int port)) ≡ true
                      → (status done ≡ some 1) × (relayed done ≡ some later))
                  × (net.connects (join_host_port host (format_int port)) ≡ false
                      → (status done ≡ some 0) × (relayed done ≡ none))))
  unfolding handle_mux_stream
  handle_mux_stream-write_mux_header src host hdr later port t e d l h w =
      let (wire, sent, got) = read_mux_header-write_mux_header json host hdr later port e d l h in
      (
        wire,
        sent,
        rw (got, handle_mux_stream)
            (elim (Bool-cases (is_allowed_targer host t).0) [
              | inl ok ↦
                  rw (ok, w)
                    (elim (Bool-cases (net.connects (join_host_port host (format_int port)))) [
                      | inl c ↦ rw (c) (ground (arith, is_allowed_targer_iff host t))
                      | inr c ↦ rw (c) (ground (arith, is_allowed_targer_iff host t))
                    ])
              | inr ok ↦ rw (ok) (ground (arith, is_allowed_targer_iff host t))
            ]),
      )
