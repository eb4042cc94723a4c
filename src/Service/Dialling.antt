-- ===== src/Service/Dialling.antt =====
-- con of web/main.go against the two handlers of the proxy: the shared websocket twice, then a
-- websocket of its own.
use ssheasy.Base.{◌≤◌, Bool, true, false, ◌&&◌, ◌||◌, ◌≡◌, refl, ap, ◌∙◌, length, some}
use ssheasy.Base.Int.{ℤ}
use ssheasy.Base.Text.{Bytes}
use ssheasy.Base.Decimal.{format_int}
use ssheasy.Access.Sources.{Verdict}
use ssheasy.Access.Targets.{Targets, is_allowed_targer}
use ssheasy.Mux.Header.{Json, write_mux_header}
use ssheasy.Mux.Server.{join_host_port, Network, handle_mux_stream}
use ssheasy.Mux.Server.Laws.{status}
use ssheasy.Mux.Client.{
  Mux, Attempt, Dialed, failed, opened, open_mux_stream, dial_muxed, retry, Connection, stream,
  dedicated, no_connection, or_legacy, con,
}
use ssheasy.Mux.Link.{is_opened, IsSmooth, direct, open_mux_stream-direct}
use ssheasy.Relay.{World, target_address, Dial, con_legacy, handle_wss}
use ssheasy.Relay.Laws.{answer}
use ssheasy.Relay.Link.{IsHeard, response_status, con_legacy-handle_wss}

abbrev pub is_connection : Connection → Bool
is_connection (stream s) = true
is_connection dedicated = true
is_connection no_connection = false

or_legacy-is_connection :
    (l : Bool) (x : Dialed × Mux) → is_connection (or_legacy l x).0 ≡ (is_opened x.0 || l)
or_legacy-is_connection l (opened s, m) = refl
or_legacy-is_connection true (failed f, m) = refl
or_legacy-is_connection false (failed f, m) = refl

or_self : (b : Bool) → (b || b) ≡ b
or_self true = refl
or_self false = refl

or_and : (a b c : Bool) → ((a && b) || (a && c)) ≡ (a && (b || c))
or_and true b c = refl
or_and false b c = refl

-- An attempt that opens a stream exactly if `d`, whatever the client kept.
abbrev Opens : Bool → Attempt → Type 0
Opens d a = (m : Mux) → is_opened (open_mux_stream a m).0 ≡ d

retry-is_opened :
    (b : Attempt) (d : Bool) (x : Dialed × Mux)
    → Opens d b
    → is_opened (retry b x).0 ≡ (is_opened x.0 || d)
retry-is_opened b d (opened s, m) h = refl
retry-is_opened b d (failed f, m) h = h _

dial_muxed-is_opened :
    (a b : Attempt) (d : Bool) (m : Mux)
    → Opens d a
    → Opens d b
    → is_opened (dial_muxed a b m).0 ≡ d
unfolding dial_muxed
dial_muxed-is_opened a b d m h k =
    retry-is_opened b d (open_mux_stream a m) k ∙ ap (λ x. x || d) (h m) ∙ or_self d

-- What the header needs to survive JSON and its two bytes of length.
pub record IsCarried (json : Json) (host : Bytes) (port : ℤ) (hdr : Bytes) : Type 0 where
  pub written : json.marshal host port ≡ some hdr
  pub read : json.unmarshal hdr ≡ some (host, port)
  pub some_bytes : 1 ≤ length hdr
  pub not_too_many : length hdr ≤ 4096

-- The attempt goes through to the proxy, which answers it with its status.
pub record IsAnswered (json : Json) (net : Network) (src host : Bytes) (port : ℤ) (t : Targets)
    (a : Attempt) : Type 0 where
  pub smooth : IsSmooth a
  pub wire : Bytes
  pub sent : write_mux_header json host port ≡ some wire
  pub told : a.status ≡ status (handle_mux_stream json net src wire t).0

answered-Opens :
    (json : Json) (net : Network) (src host hdr : Bytes) (port : ℤ) (t : Targets) (a : Attempt)
    → net.takes_status ≡ true
    → IsCarried json host port hdr
    → IsAnswered json net src host port t a
    → Opens (direct net t host port) a
answered-Opens json net src host hdr port t a w c i m =
    open_mux_stream-direct json net src host hdr port t m c.written c.read c.some_bytes
      c.not_too_many w a i.smooth i.wire i.sent i.told

-- con does what it stands for, over both ways of the proxy. If nothing fails between the two programs
-- and the proxy lets the client in, con has a connection exactly if the target is allowed, and takes the
-- connection under the name that one of the two handlers gives it; so con has none to a target on
-- the black list.
pub con-direct {κ} :
    {L : Type κ} (json : Json) (net : Network) (src host hdr : Bytes) (port : ℤ) (t : Targets)
    (m : Mux) (a b : Attempt) (w : World) (v : Verdict L) (d : Dial) (request : Bytes)
    → net.takes_status ≡ true
    → IsCarried json host port hdr
    → IsAnswered json net src host port t a
    → IsAnswered json net src host port t b
    → IsHeard w v request host port
    → d.opens ≡ true
    → d.encoded ≡ some request
    → d.response ≡ response_status (answer (handle_wss w v t).0)
    → is_connection (con a b (con_legacy d) m).0 ≡ (
        (is_allowed_targer host t).0
        && (net.connects (join_host_port host (format_int port))
            || w.connects (target_address host port)))
unfolding con
con-direct json net src host hdr port t m a b w v d request takes c i j h o e r =
    or_legacy-is_connection (con_legacy d) (dial_muxed a b m)
    ∙ ap (λ x. x || con_legacy d)
        (dial_muxed-is_opened a b (direct net t host port) m
          (answered-Opens json net src host hdr port t a takes c i)
          (answered-Opens json net src host hdr port t b takes c j))
    ∙ ap (λ x. direct net t host port || x)
        (con_legacy-handle_wss w v t d request host port h o e r).0
    ∙ or_and (is_allowed_targer host t).0 _ _
