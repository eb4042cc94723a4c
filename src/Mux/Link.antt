-- ===== src/Mux/Link.antt =====
-- The two ends of the shared websocket together, against the connection that they stand for.
use ssheasy.Base.{
  ℕ, suc, ◌≤◌, length, Bool, true, false, ◌&&◌, ◌≡◌, refl, ap, subst, ◌∙◌, sym, inl, inr, [], ◌++◌,
  Option, none, some, ◌==◌, arith, Bool-cases, append-nil,
}
use ssheasy.Base.Int.{ℤ}
use ssheasy.Base.Text.{Bytes}
use ssheasy.Base.Decimal.{format_int}
use ssheasy.Access.Targets.{Targets, is_allowed_targer}
use ssheasy.Mux.Header.{Json, header, read_mux_header, write_mux_header}
use ssheasy.Mux.Header.Laws.{read_mux_header-write_mux_header}
use ssheasy.Mux.Server.{join_host_port, Network, handle_mux_stream, connect}
use ssheasy.Mux.Server.Laws.{status}
use ssheasy.Mux.Client.{
  Mux, Attempt, Dialed, failed, opened, is_closed, establish, reuse, mux_session, on_session, judge,
  open_mux_stream,
}

some_injective : {A : Type 0} {x y : A} → some x ≡ some y → x ≡ y
some_injective h = cc

-- The connection as a client of the proxy would describe it: the target is allowed, and takes it.
abbrev pub direct : Network → Targets → Bytes → ℤ → Bool
direct net t host port =
    (is_allowed_targer host t).0 && net.connects (join_host_port host (format_int port))

abbrev pub is_opened : Dialed → Bool
is_opened (failed f) = false
is_opened (opened s) = true

-- Nothing fails on the way to the proxy.
pub record IsSmooth (a : Attempt) : Type 0 where
  pub ws_opens : a.ws_opens ≡ true
  pub client_made : a.client_made ≡ true
  pub stream_opens : a.stream_opens ≡ true
  pub header_sent : a.header_sent ≡ true

abbrev IsOnSession : Dialed × Mux → Type 0
IsOnSession x = (s : ℕ) × (m : Mux) × (x ≡ (opened s, m))

establish-IsOnSession : (a : Attempt) (m : Mux) → IsSmooth a → IsOnSession (establish a m)
establish-IsOnSession a m h = (
  m.next,
  record m { mux_sess = some m.next; next = suc m.next },
  rw (h.ws_opens, h.client_made) refl,
)

reuse-IsOnSession : (a : Attempt) (m : Mux) (o : Option ℕ) → IsSmooth a → IsOnSession (reuse a m o)
reuse-IsOnSession a m none h = establish-IsOnSession a m h
reuse-IsOnSession a m (some s) h = elim (Bool-cases (is_closed s m.closed)) [
  | inl q ↦ rw (q) (establish-IsOnSession a m h)
  | inr q ↦ rw (q) (s, m, refl)
]

judged : (s b : ℕ) → is_opened (judge s (some b)) ≡ (b == 1)
judged s b = ground arith

on_session-opened :
    (a : Attempt) (s b : ℕ) (m : Mux)
    → IsSmooth a
    → a.status ≡ some b
    → is_opened (on_session a (opened s, m)).0 ≡ (b == 1)
on_session-opened a s b m h e = rw (h.stream_opens, h.header_sent, e) (judged s b)

-- On a way that does not fail, the client opens a stream exactly if the status is 1.
open_mux_stream-status :
    (a : Attempt) (m : Mux) (b : ℕ)
    → IsSmooth a
    → a.status ≡ some b
    → is_opened (open_mux_stream a m).0 ≡ (b == 1)
unfolding open_mux_stream mux_session
open_mux_stream-status a m b h e =
    let (s, m', on) = reuse-IsOnSession a m m.mux_sess h in
    ap (λ x. is_opened (on_session a x).0) on ∙ on_session-opened a s b m' h e

-- The status that the proxy sends is 1 exactly for a direct connection.
connect-status :
    (json : Json) (net : Network) (src host rest : Bytes) (port : ℤ) (ok : Bool)
    → net.takes_status ≡ true
    → (b : ℕ) × (status (connect json net src host port rest ok) ≡ some b)
      × ((b == 1) ≡ (ok && net.connects (join_host_port host (format_int port))))
connect-status json net src host rest port false w = (0, refl, refl)
connect-status json net src host rest port true w =
    elim (Bool-cases (net.connects (join_host_port host (format_int port)))) [
      | inl c ↦ rw (c, w) (1, refl, refl)
      | inr c ↦ rw (c) (0, refl, refl)
    ]

handle_mux_stream-connect :
    (json : Json) (net : Network) (src host inp rest : Bytes) (port : ℤ) (t : Targets)
    → read_mux_header json inp ≡ header host port rest
    → (handle_mux_stream json net src inp t).0
      ≡ connect json net src host port rest (is_allowed_targer host t).0
unfolding handle_mux_stream
handle_mux_stream-connect json net src host inp rest port t e = rw (e, handle_mux_stream) refl

-- openMuxStream and handleMuxStream together do what they stand for. If nothing fails between the two
-- programs, the text of the header has 1 to 4096 bytes and is decoded to what was encoded, the proxy
-- reads the header as the client wrote it, and the client gets the proxy's status, then the client has a
-- stream exactly if the target is allowed and takes the connection.
pub open_mux_stream-direct :
    (json : Json) (net : Network) (src host hdr : Bytes) (port : ℤ) (t : Targets) (m : Mux)
    → json.marshal host port ≡ some hdr
    → json.unmarshal hdr ≡ some (host, port)
    → 1 ≤ length hdr
    → length hdr ≤ 4096
    → net.takes_status ≡ true
    → (a : Attempt) → IsSmooth a
    → (wire : Bytes) → write_mux_header json host port ≡ some wire
    → a.status ≡ status (handle_mux_stream json net src wire t).0
    → is_opened (open_mux_stream a m).0 ≡ direct net t host port
open_mux_stream-direct json net src host hdr port t m e d l h w a smooth wire sent answered =
    let (wire', sent', got) = read_mux_header-write_mux_header json host hdr [] port e d l h in
    let same : wire' ++ [] ≡ wire = append-nil wire' ∙ some_injective (sym sent' ∙ sent) in
    let (b, told, one) = connect-status json net src host [] port (is_allowed_targer host t).0 w in
    let read = subst (λ s. read_mux_header json s ≡ header host port []) same got in
    let served = handle_mux_stream-connect json net src host wire [] port t read in
    open_mux_stream-status a m b smooth (answered ∙ ap status served ∙ told) ∙ one
