-- ===== src/Service/Shutdown.antt =====
-- The end of main waits for the handlers of proxy/main.go: handleWss as concurrent threads of events, over
-- the counter activeWebsocks that the loop of main reads.
pub mod Ends
use ssheasy.Base.{
  ℕ, zero, suc, ◌+◌, ◌≤◌, Bool, true, false, ◌≡◌, ◌≢◌, refl, sym, ap, ◌∙◌, ◌↔◌, inl, inr, List, [],
  ◌∷◌, ◌++◌, All, Option, none, some, if◌then◌else◌, Bool-cases, arith, length, length-append, not,
}
use ssheasy.Base.Int.{ℤ, pos, ◌+ℤ◌, ◌-ℤ◌, ltb_ℤ}
use ssheasy.Base.Text.{Bytes}
use ssheasy.Access.Sources.{Verdict, first_of}
use ssheasy.Access.Targets.{Targets, is_allowed_targer}
use ssheasy.Relay.{
  Event, websocket_up, websocket_down, connection_up, connection_down, audit, dial, respond, relay,
  close_target, close_websocket, World, buffer, target_address, Served, admit, requested, message,
  serve, handle_wss,
}
use ssheasy.Service.{drain}

-- Before the counter is raised, between the two changes of it, and behind them.
pub data Phase : Type 0 where
  waiting inside finished : Phase

-- What an event changes of the phase; `none` is an order that handleWss does not have.
abbrev pub next : Phase → Event → Option Phase
next waiting websocket_up = some inside
next inside websocket_up = none
next finished websocket_up = none
next waiting websocket_down = none
next inside websocket_down = some finished
next finished websocket_down = none
next p connection_up = some p
next p connection_down = some p
next p (audit a b n m) = some p
next p (dial a) = some p
next p (respond b) = some p
next p relay = some p
next p close_target = some p
next p close_websocket = some p

abbrev then_run : (Phase → Option Phase) → Option Phase → Option Phase
then_run go none = none
then_run go (some q) = go q

unfoldable pub run : List Event → Phase → Option Phase
run [] p = some p
run (e ∷ es) p = then_run (run es) (next p e)

-- One call of handleWss, with the events that are still ahead.
pub record Thread : Type 0 where
  pub phase : Phase
  pub todo : List Event

abbrev pub IsHandled : Thread → Type 0
IsHandled t = run t.todo t.phase ≡ some finished

-- atomic.AddInt64 of activeWebsocks
abbrev pub add : Event → ℤ → ℤ
add websocket_up c = c +ℤ pos 1
add websocket_down c = c -ℤ pos 1
add connection_up c = c
add connection_down c = c
add (audit a b n m) c = c
add (dial a) c = c
add (respond b) c = c
add relay c = c
add close_target c = c
add close_websocket c = c

-- One event of one of the threads.
pub data Step : List Thread → ℤ → List Thread → ℤ → Type 0 where
  here :
      (p q : Phase) (e : Event) (es : List Event) (ts : List Thread) (c : ℤ)
      → next p e ≡ some q
      → Step
          (record { phase = p; todo = e ∷ es } ∷ ts)
          c
          (record { phase = q; todo = es } ∷ ts)
          (add e c)
  there :
      (t : Thread) (ts ts' : List Thread) (c c' : ℤ)
      → Step ts c ts' c'
      → Step (t ∷ ts) c (t ∷ ts') c'

-- The states that the server comes to: connections arrive, and the calls that serve them take steps.
pub data Reaches : List Thread → ℤ → Type 1 where
  begin : Reaches [] (pos 0)
  arrives :
      {L : Type 0} (w : World) (v : Verdict L) (t : Targets) (ts : List Thread) (c : ℤ)
      → Reaches ts c
      → Reaches (record { phase = waiting; todo = (handle_wss w v t).0 } ∷ ts) c
  steps : (ts ts' : List Thread) (c c' : ℤ) → Reaches ts c → Step ts c ts' c' → Reaches ts' c'

abbrev is_inside : Phase → ℕ
is_inside waiting = 0
is_inside inside = 1
is_inside finished = 0

-- The calls between the two changes of the counter.
abbrev pub busy : List Thread → ℕ
busy [] = 0
busy (t ∷ ts) = is_inside t.phase + busy ts

-- The events that are still ahead.
abbrev pub work : List Thread → ℕ
work [] = 0
work (t ∷ ts) = length t.todo + work ts

-- The body of a call does not touch the counter.
abbrev IsQuiet : Served → Type 0
IsQuiet s = (rest : List Event) → run (s.events ++ rest) inside ≡ run rest inside

module _ (w : World) where
  admit-IsQuiet :
      (ip host : Bytes) (port : ℤ) (o : Bool × Targets) → IsQuiet (admit w ip host port o)
  unfolding run
  admit-IsQuiet ip host port (false, t) = λ rest. refl
  admit-IsQuiet ip host port (true, t) = elim (Bool-cases (w.connects (target_address host port))) [
    | inl e ↦ rw (e) (λ rest. refl)
    | inr e ↦ rw (e) (λ rest. refl)
  ]

  requested-IsQuiet :
      (ip : Bytes) (o : Option (Bytes × ℤ)) (t : Targets) → IsQuiet (requested w ip o t)
  requested-IsQuiet ip none t = λ rest. refl
  requested-IsQuiet ip (some (host, port)) t = elim (Bool-cases w.deadline_reset) [
    | inl e ↦ rw (e) (admit-IsQuiet ip host port (is_allowed_targer host t))
    | inr e ↦ rw (e) (λ rest. refl)
  ]

  message-IsQuiet : (ip : Bytes) (o : Option Bytes) (t : Targets) → IsQuiet (message w ip o t)
  message-IsQuiet ip none t = λ rest. refl
  message-IsQuiet ip (some bytes) t = requested-IsQuiet ip (w.decode (buffer 2048 bytes)) t

  serve-IsQuiet : {L : Type 0} (v : Verdict L) (t : Targets) → IsQuiet (serve w v t)
  unfolding serve
  serve-IsQuiet v t = elim (Bool-cases v.blocked) [
    | inl e ↦ rw (e, serve) (λ rest. refl)
    | inr e ↦ elim (Bool-cases w.deadline_set) [
      | inl d ↦ rw (e, d, serve) (message-IsQuiet (first_of v.ips) w.received t)
      | inr d ↦ rw (e, d, serve) (λ rest. refl)
    ]
  ]

  handle_wss-IsHandled :
      {L : Type 0} (v : Verdict L) (t : Targets) → run (handle_wss w v t).0 waiting ≡ some finished
  unfolding run handle_wss
  handle_wss-IsHandled v t = elim (Bool-cases (serve w v t).ac) [
    | inl e ↦ rw (serve-IsQuiet v t _, e) refl
    | inr e ↦ rw (serve-IsQuiet v t _, e) refl
  ]
