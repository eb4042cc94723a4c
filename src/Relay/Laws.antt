-- ===== src/Relay/Laws.antt =====
-- What a call of handleWss may do, and that it gives back what it counted.
use ssheasy.Base.{
  ℕ, ◌+◌, ◌-◌, Bool, true, false, ◌≡◌, refl, List, [], ◌∷◌, ◌++◌, Option, none, some, arith,
  if◌then◌else◌, Bool-cases, inl, inr, ◌⊎◌, ◌↔◌,
}
use ssheasy.Base.Int.{ℤ}
use ssheasy.Base.Text.{Bytes}
use ssheasy.Access.Sources.{Verdict, first_of}
use ssheasy.Access.Targets.{Targets, is_allowed_targer}
use ssheasy.Access.Targets.Laws.{IsIn, is_allowed_targer_iff}
use ssheasy.Relay.{
  Event, websocket_up, websocket_down, connection_up, connection_down, dial, respond, relay,
  close_websocket, World, buffer, target_address, Served, admit, requested, message, serve,
  handle_wss,
}

-- activeWebsocks and the gauge of the active connections.
abbrev pub Counts : Type 0
Counts = ℕ × ℕ

abbrev pub count : Event → Counts → Counts
count websocket_up (a, c) = (a + 1, c)
count websocket_down (a, c) = (a - 1, c)
count connection_up (a, c) = (a, c + 1)
count connection_down (a, c) = (a, c - 1)
count _ n = n

pub count_all : List Event → Counts → Counts
count_all [] n = n
count_all (e ∷ es) n = count_all es (count e n)

-- The body leaves the first count, and raises the second exactly if it set the gauge.
abbrev IsCountedBy : Served → Type 0
IsCountedBy s =
    (a c : ℕ) (rest : List Event)
    → count_all (s.events ++ rest) (a, c) ≡ count_all rest (a, if s.ac then c + 1 else c)

-- Some connection to this address is tried.
abbrev pub Dials : Bytes → List Event → Type 0
Dials address [] = ⊥
Dials address (dial a ∷ es) = (address ≡ a) ⊎ Dials address es
Dials address (_ ∷ es) = Dials address es

-- The status that the client gets.
abbrev pub answer : List Event → Option Bool
answer [] = none
answer (respond ok ∷ es) = some ok
answer (_ ∷ es) = answer es

abbrev pub relays : List Event → Bool
relays [] = false
relays (relay ∷ es) = true
relays (_ ∷ es) = relays es

module _ (w : World) where
  admit_counts :
      (ip host : Bytes) (port : ℤ) (o : Bool × Targets) → IsCountedBy (admit w ip host port o)
  unfolding count_all
  admit_counts ip host port (false, t) = λ a c rest. refl
  admit_counts ip host port (true, t) = elim (Bool-cases (w.connects (target_address host port))) [
    | inl e ↦ rw (e) (λ a c rest. refl)
    | inr e ↦ rw (e) (λ a c rest. refl)
  ]

  requested_counts :
      (ip : Bytes) (o : Option (Bytes × ℤ)) (t : Targets) → IsCountedBy (requested w ip o t)
  requested_counts ip none t = λ a c rest. refl
  requested_counts ip (some (host, port)) t = elim (Bool-cases w.deadline_reset) [
    | inl e ↦ rw (e) (admit_counts ip host port (is_allowed_targer host t))
    | inr e ↦ rw (e) (λ a c rest. refl)
  ]

  message_counts : (ip : Bytes) (o : Option Bytes) (t : Targets) → IsCountedBy (message w ip o t)
  message_counts ip none t = λ a c rest. refl
  message_counts ip (some bytes) t = requested_counts ip (w.decode (buffer 2048 bytes)) t

  -- All events of a call with this body.
  abbrev wrapped : Served → List Event
  wrapped s =
      websocket_up ∷ s.events
      ++ websocket_down ∷ close_websocket ∷ (if s.ac then connection_down ∷ [] else [])

  wrapped-admit :
      (host : Bytes) (banned : List Bytes) (ip : Bytes) (port : ℤ) (o : Bool × Targets)
      → (o.0 ≡ false) ↔ IsIn host banned
      → let es = wrapped (admit w ip host port o) in
        let address = target_address host port in
        (IsIn host banned → ((a : Bytes) → ¬ Dials a es) × (answer es ≡ none) × (relays es ≡ false))
        × (¬ IsIn host banned
            → Dials address es
              × (answer es ≡ some (w.connects address))
              × (relays es ≡ w.connects address))
  wrapped-admit host banned ip port (false, t) h =
      (λ i. ((λ a k. k), refl, refl), λ n. absurd (n (h.0 refl)))
  wrapped-admit host banned ip port (true, t) h =
      elim (Bool-cases (w.connects (target_address host port))) [
        | inl c ↦ rw (c) ((λ i. cc (h.1 i)), λ n. (inl refl, refl, refl))
        | inr c ↦ rw (c) ((λ i. cc (h.1 i)), λ n. (inl refl, refl, refl))
      ]

  module _ {κ} {L : Type κ} (v : Verdict L) where
    serve_counts : (t : Targets) → IsCountedBy (serve w v t)
    unfolding serve
    serve_counts t = elim (Bool-cases v.blocked) [
      | inl e ↦ rw (e, serve) (λ a c rest. refl)
      | inr e ↦ elim (Bool-cases w.deadline_set) [
        | inl e' ↦ rw (e, e', serve) (message_counts (first_of v.ips) w.received t)
        | inr e' ↦ rw (e, e', serve) (λ a c rest. refl)
      ]
    ]

    -- Whatever happens during a call of handleWss, errors included, it leaves the number of active
    -- websockets and of active connections as it found them, so that the wait for them at the end of
    -- the program counts only the calls that still run.
    handle_wss_counts : (t : Targets) (a c : ℕ) → count_all (handle_wss w v t).0 (a, c) ≡ (a, c)
    unfolding handle_wss count_all
    handle_wss_counts t a c = elim (Bool-cases (serve w v t).ac) [
      | inl e ↦ rw (serve_counts t (a + 1) c _, e) (ground arith)
      | inr e ↦ rw (serve_counts t (a + 1) c _, e) (ground arith)
    ]

    serve-admit :
        (t : Targets) (bytes host : Bytes) (port : ℤ)
        → v.blocked ≡ false
        → w.deadline_set ≡ true
        → w.received ≡ some bytes
        → w.decode (buffer 2048 bytes) ≡ some (host, port)
        → w.deadline_reset ≡ true
        → serve w v t ≡ admit w (first_of v.ips) host port (is_allowed_targer host t)
    unfolding serve
    serve-admit t bytes host port b d r e d' = ground arith

    -- A request that arrives in time, of a client that is let in. For a listed target nothing is
    -- dialled, nothing is answered and nothing is relayed. An open target is dialled; the client is
    -- told whether it connects, and bytes are relayed exactly then.
    pub handle_wss_lem :
        (t : Targets) (bytes host : Bytes) (port : ℤ)
        → v.blocked ≡ false
        → w.deadline_set ≡ true
        → w.received ≡ some bytes
        → w.decode (buffer 2048 bytes) ≡ some (host, port)
        → w.deadline_reset ≡ true
        → let es = (handle_wss w v t).0 in
          let address = target_address host port in
          (IsIn host t.blacklisted_targets
            → ((a : Bytes) → ¬ Dials a es) × (answer es ≡ none) × (relays es ≡ false))
          × (¬ IsIn host t.blacklisted_targets
              → Dials address es
                × (answer es ≡ some (w.connects address))
                × (relays es ≡ w.connects address))
    unfolding handle_wss
    handle_wss_lem t bytes host port b d r e d' =
        rw (handle_wss, serve-admit t bytes host port b d r e d')
          (wrapped-admit host t.blacklisted_targets (first_of v.ips) port (is_allowed_targer host t)
            (is_allowed_targer_iff host t))
