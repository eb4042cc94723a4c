-- ===== src/Mux/Client.antt =====
-- web/mux.go: muxSession, openMuxStream and dialMuxed, the browser's end of the shared websocket, and
-- con of web/main.go, which falls back to a websocket of its own.
pub mod Laws
use ssheasy.Base.{
  ℕ, suc, Bool, true, false, ◌||◌, not, List, [], ◌∷◌, Option, none, some, if◌then◌else◌, ◌==◌,
}

-- muxSess and the sessions that were closed, by number; `next` is the number of the next new one.
pub record Mux : Type 0 where
  pub mux_sess : Option ℕ
  pub closed : List ℕ
  pub next : ℕ

-- What the outside does in one call of openMuxStream: whether the websocket opens, whether yamux
-- makes a client session on it, whether the session opens a stream, whether the stream takes the
-- header, and the status byte that comes back, if any.
pub record Attempt : Type 0 where
  pub ws_opens : Bool
  pub client_made : Bool
  pub stream_opens : Bool
  pub header_sent : Bool
  pub status : Option ℕ

pub data Fault : Type 0 where
  no_ws no_client no_stream no_header no_status refused : Fault

-- A stream on the session with this number.
pub data Dialed : Type 0 where
  failed : Fault → Dialed
  opened : ℕ → Dialed

unfoldable pub is_closed : ℕ → List ℕ → Bool
is_closed s [] = false
is_closed s (c ∷ cs) = s == c || is_closed s cs

-- A new session, kept in muxSess.
abbrev pub establish : Attempt → Mux → Dialed × Mux
establish a m =
    if not a.ws_opens
    then (failed no_ws, m)
    else if not a.client_made
    then (failed no_client, m)
    else (opened m.next, record m { mux_sess = some m.next; next = suc m.next })

abbrev pub reuse : Attempt → Mux → Option ℕ → Dialed × Mux
reuse a m none = establish a m
reuse a m (some s) = if is_closed s m.closed then establish a m else (opened s, m)

-- muxSession
unfoldable pub mux_session : Attempt → Mux → Dialed × Mux
mux_session a m = reuse a m m.mux_sess

abbrev pub judge : ℕ → Option ℕ → Dialed
judge s none = failed no_status
judge s (some b) = if b == 1 then opened s else failed refused

abbrev pub on_session : Attempt → Dialed × Mux → Dialed × Mux
on_session a (failed f, m) = (failed f, m)
on_session a (opened s, m) =
    if not a.stream_opens
    then (failed no_stream, m)
    else if not a.header_sent
    then (failed no_header, m)
    else (judge s a.status, m)

-- openMuxStream
unfoldable pub open_mux_stream : Attempt → Mux → Dialed × Mux
open_mux_stream a m = on_session a (mux_session a m)

abbrev pub drop_session : Mux → Option ℕ → Mux
drop_session m none = m
drop_session m (some s) = record m { mux_sess = none; closed = s ∷ m.closed }

abbrev pub retry : Attempt → Dialed × Mux → Dialed × Mux
retry b (opened s, m) = (opened s, m)
retry b (failed f, m) = open_mux_stream b (drop_session m m.mux_sess)

-- dialMuxed, with what the outside does in the first call and in the second.
unfoldable pub dial_muxed : Attempt → Attempt → Mux → Dialed × Mux
dial_muxed a b m = retry b (open_mux_stream a m)

-- What con returns: a stream on a session, a websocket of its own, or an error.
pub data Connection : Type 0 where
  stream : ℕ → Connection
  dedicated no_connection : Connection

abbrev pub or_legacy : Bool → Dialed × Mux → Connection × Mux
or_legacy legacy (opened s, m) = (stream s, m)
or_legacy true (failed f, m) = (dedicated, m)
or_legacy false (failed f, m) = (no_connection, m)

-- con, where `legacy` says whether conLegacy succeeds.
unfoldable pub con : Attempt → Attempt → Bool → Mux → Connection × Mux
con a b legacy m = or_legacy legacy (dial_muxed a b m)
