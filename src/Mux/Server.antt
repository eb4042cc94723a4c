-- ===== src/Mux/Server.antt =====
-- proxy/mux.go: handleMuxWss and handleMuxStream, the proxy's end of the shared websocket.
pub mod Laws
use ssheasy.Base.{
  ℕ, Bool, true, false, ◌||◌, List, [], ◌∷◌, ◌++◌, Option, none, some, if◌then◌else◌, ◌==◌,
}
use ssheasy.Base.Int.{ℤ}
use ssheasy.Base.Text.{Bytes, codes}
use ssheasy.Base.Decimal.{format_int}
use ssheasy.Access.Sources.{Verdict, first_of}
use ssheasy.Access.Targets.{Targets, is_allowed_targer}
use ssheasy.Mux.Header.{Json, HeaderResult, bad_header, header, read_mux_header}

-- What a stream's handler does that others see, in order. `audit` is a call of writeAuditLog.
pub data Action : Type 0 where
  write_status : ℕ → Action
  audit : Bytes → Bytes → ℤ → Bytes → Action
  dial : Bytes → Action
  -- the two copies between the stream and the target, with the input read past the header
  relay : Bytes → Action

-- net.JoinHostPort
unfoldable pub has_colon : Bytes → Bool
has_colon [] = false
has_colon (c ∷ s) = c == b':' || has_colon s

unfoldable pub join_host_port : Bytes → Bytes → Bytes
join_host_port host port =
    if has_colon host then codes "[" ++ host ++ codes "]:" ++ port else host ++ codes ":" ++ port

-- What the network does: which addresses take a connection, and whether the stream takes the byte 1.
pub record Network : Type 0 where
  pub connects : Bytes → Bool
  pub takes_status : Bool

module _ (json : Json) (net : Network) where
  -- Behind the header, with the answer of isAllowedTarger.
  abbrev pub connect : Bytes → Bytes → ℤ → Bytes → Bool → List Action
  connect src host port rest false = write_status 0 ∷ []
  connect src host port rest true =
      let address = join_host_port host (format_int port) in
      if net.connects address
      then if net.takes_status
        then dial address
          ∷ write_status 1
          ∷ audit src host port (codes "mux stream established")
          ∷ relay rest
          ∷ []
        else dial address ∷ []
      else dial address ∷ audit src host port (codes "mux dial failed") ∷ write_status 0 ∷ []

  -- handleMuxStream
  unfoldable pub handle_mux_stream : Bytes → Bytes → Targets → List Action × Targets
  handle_mux_stream src inp t = elim (read_mux_header json inp) [
    | bad_header ↦ ([], t)
    | header host port rest ↦
        let (ok, t') = is_allowed_targer host t in (connect src host port rest ok, t')
  ]

  -- The loop of handleMuxWss over the streams that it accepts, one after the other.
  unfoldable pub accept_all : Bytes → List Bytes → Targets → List (List Action) × Targets
  accept_all src [] t = ([], t)
  accept_all src (inp ∷ inps) t =
      let (done, t') = handle_mux_stream src inp t in
      let (rest, t'') = accept_all src inps t' in (done ∷ rest, t'')

  -- handleMuxWss, behind getIPAdress and a session that could be made.
  unfoldable pub handle_mux_wss {κ} :
      {L : Type κ} → Verdict L → List Bytes → Targets → List (List Action) × Targets
  handle_mux_wss v inps t = if v.blocked then ([], t) else accept_all (first_of v.ips) inps t
