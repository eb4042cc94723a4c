-- ===== src/Relay.antt =====
-- proxy/main.go: handleWss, which serves one connection on a websocket of its own, and conLegacy of
-- web/main.go, its client. Logging and the counters of totals are left out.
pub mod Laws
pub mod Copies
pub mod Link
pub mod Obfuscated
mod Examples
use ssheasy.Base.{
  ℕ, zero, suc, ◌+◌, ◌-◌, Bool, true, false, not, List, [], ◌∷◌, ◌++◌, Option, none, some,
  if◌then◌else◌,
}
use ssheasy.Base.Int.{ℤ}
use ssheasy.Base.Text.{Bytes, codes, bytes_eq}
use ssheasy.Base.Decimal.{format_int}
use ssheasy.Access.Sources.{Verdict, first_of}
use ssheasy.Access.Targets.{Targets, is_allowed_targer}

-- What handleWss does that others see, in order.
pub data Event : Type 0 where
  -- activeWebsocks and the gauge of active connections
  websocket_up websocket_down connection_up connection_down : Event
  -- writeAuditLog
  audit : Bytes → Bytes → ℤ → Bytes → Event
  dial : Bytes → Event
  -- the status "ok" or "failed" to the client
  respond : Bool → Event
  -- the two copies, up to the end of both, with the entry of the audit log behind them
  relay : Event
  close_target close_websocket : Event

-- What the outside does during one call: the two deadlines, the bytes of the first Read, what the JSON
-- decoder makes of the buffer, and the addresses that take a connection.
pub record World : Type 0 where
  pub deadline_set : Bool
  pub received : Option Bytes
  pub decode : Bytes → Option (Bytes × ℤ)
  pub deadline_reset : Bool
  pub connects : Bytes → Bool

-- The buffer of 2048 bytes behind the Read: what was read, and zeros.
unfoldable pub buffer : ℕ → Bytes → Bytes
buffer zero s = []
buffer (suc n) [] = 0 ∷ buffer n []
buffer (suc n) (c ∷ s) = c ∷ buffer n s

-- fmt.Sprintf("%s:%d", cr.Host, cr.Port)
abbrev pub target_address : Bytes → ℤ → Bytes
target_address host port = host ++ codes ":" ++ format_int port

-- The events of the body, and whether the gauge `ac` was set.
pub record Served : Type 0 where
  pub events : List Event
  pub ac : Bool
  pub targets : Targets

abbrev ended : Targets → Served
ended t = record { events = []; ac = false; targets = t }

module _ (w : World) where
  abbrev dial_target : Bytes → Bytes → ℤ → Targets → Served
  dial_target ip host port t =
      let address = target_address host port in
      let asked = audit ip host port (codes "connection request") in
      if w.connects address
      then record {
        events =
            asked
            ∷ dial address
            ∷ respond true
            ∷ connection_up
            ∷ audit ip host port (codes "connection established")
            ∷ relay
            ∷ close_target
            ∷ [];
        ac = true;
        targets = t;
      }
      else record {
        events =
            asked
            ∷ dial address
            ∷ audit ip host port (codes "connection failed")
            ∷ respond false
            ∷ [];
        ac = false;
        targets = t;
      }

  abbrev pub admit : Bytes → Bytes → ℤ → Bool × Targets → Served
  admit ip host port (false, t) = record {
    events = audit ip host port (codes "connection request") ∷ [];
    ac = false;
    targets = t;
  }
  admit ip host port (true, t) = dial_target ip host port t

  abbrev pub requested : Bytes → Option (Bytes × ℤ) → Targets → Served
  requested ip none t = ended t
  requested ip (some (host, port)) t =
      if w.deadline_reset then admit ip host port (is_allowed_targer host t) else ended t

  abbrev pub message : Bytes → Option Bytes → Targets → Served
  message ip none t = ended t
  message ip (some bytes) t = requested ip (w.decode (buffer 2048 bytes)) t

  unfoldable pub serve {κ} : {L : Type κ} → Verdict L → Targets → Served
  serve v t =
      if v.blocked
      then ended t
      else if w.deadline_set
      then message (first_of v.ips) w.received t
      else ended t

  -- handleWss, with what it defers.
  unfoldable pub handle_wss {κ} : {L : Type κ} → Verdict L → Targets → List Event × Targets
  handle_wss v t =
      let s = serve v t in
      let down = (if s.ac then connection_down ∷ [] else []) in
      (websocket_up ∷ s.events ++ websocket_down ∷ close_websocket ∷ down, s.targets)

-- The client's view of one call of conLegacy: whether the websocket opens, the connection request as
-- JSON, and the status of the response, if one can be read.
pub record Dial : Type 0 where
  pub opens : Bool
  pub encoded : Option Bytes
  pub response : Option Bytes

abbrev pub accepted : Option Bytes → Bool
accepted none = false
accepted (some status) = bytes_eq status (codes "ok")

abbrev pub sent : Option Bytes → Option Bytes → Bool
sent none response = false
sent (some request) response = accepted response

-- conLegacy: whether it returns a connection.
unfoldable pub con_legacy : Dial → Bool
con_legacy d = if d.opens then sent d.encoded d.response else false
