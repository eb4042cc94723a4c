-- ===== src/Relay/Link.antt =====
-- handleWss and conLegacy together, against the connection that they stand for.
use ssheasy.Base.{
  Bool, true, false, ◌&&◌, ◌≡◌, refl, ap, ◌∙◌, inl, inr, Option, none, some, Bool-cases, false≢true,
  sym,
}
use ssheasy.Base.Int.{ℤ}
use ssheasy.Base.Text.{Bytes, codes, bytes_eq}
use ssheasy.Access.Sources.{Verdict}
use ssheasy.Access.Targets.{Targets, is_allowed_targer}
use ssheasy.Access.Targets.Laws.{is_allowed_targer_iff}
use ssheasy.Relay.{World, buffer, target_address, handle_wss, Dial, accepted, con_legacy}
use ssheasy.Relay.Laws.{answer, relays, handle_wss_lem}

-- The status in the response, as a client reads it; without a response the websocket is closed.
abbrev pub response_status : Option Bool → Option Bytes
response_status none = none
response_status (some true) = some (codes "ok")
response_status (some false) = some (codes "failed")

-- The proxy reads the request in time, in one Read, and decodes it; the client is let in.
pub record IsHeard {κ} {L : Type κ} (w : World) (v : Verdict L) (request host : Bytes) (port : ℤ)
    : Type 0 where
  pub free : v.blocked ≡ false
  pub set : w.deadline_set ≡ true
  pub read : w.received ≡ some request
  pub decoded : w.decode (buffer 2048 request) ≡ some (host, port)
  pub reset : w.deadline_reset ≡ true

-- The client takes the answer for what it is.
accepted-response_status : (b : Bool) → accepted (response_status (some b)) ≡ b
unfolding bytes_eq
accepted-response_status true = refl
accepted-response_status false = refl

con_legacy-accepted :
    (d : Dial) (request : Bytes)
    → d.opens ≡ true
    → d.encoded ≡ some request
    → con_legacy d ≡ accepted d.response
unfolding con_legacy
con_legacy-accepted d request o e = rw (con_legacy, o, e) refl

-- conLegacy and handleWss together do what they stand for. If the websocket opens, the proxy lets the
-- client in, reads the request as it was encoded, and the client gets the proxy's status, then the client
-- has a connection exactly if the target is allowed and takes it, and exactly if the proxy relays.
pub con_legacy-handle_wss {κ} :
    {L : Type κ} (w : World) (v : Verdict L) (t : Targets) (d : Dial) (request host : Bytes)
    (port : ℤ)
    → IsHeard w v request host port
    → d.opens ≡ true
    → d.encoded ≡ some request
    → d.response ≡ response_status (answer (handle_wss w v t).0)
    → (con_legacy d ≡ ((is_allowed_targer host t).0 && w.connects (target_address host port)))
      × (con_legacy d ≡ relays (handle_wss w v t).0)
con_legacy-handle_wss w v t d request host port h o e a =
    let (shut, taken) =
      handle_wss_lem w v t request host port h.free h.set h.read h.decoded h.reset in
    let asked = con_legacy-accepted d request o e ∙ ap accepted a in
    elim (Bool-cases (is_allowed_targer host t).0) [
      | inr n ↦
          let (_, quiet, unrelayed) = shut ((is_allowed_targer_iff host t).0 n) in
          let refused = asked ∙ ap (λ x. accepted (response_status x)) quiet in
          (refused ∙ rw (n) refl, refused ∙ sym unrelayed)
      | inl y ↦
          let (_, told, relayed) =
            taken (λ i. false≢true (sym ((is_allowed_targer_iff host t).1 i) ∙ y)) in
          let heard =
            asked
            ∙ ap (λ x. accepted (response_status x)) told
            ∙ accepted-response_status (w.connects (target_address host port)) in
          (heard ∙ rw (y) refl, heard ∙ sym relayed)
    ]
