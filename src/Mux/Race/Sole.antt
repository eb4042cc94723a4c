-- ===== src/Mux/Race/Sole.antt =====
-- Which sessions are open while calls of dialMuxed interleave.
use ssheasy.Base.{
  ℕ, zero, suc, ◌<◌, ◌≤◌, true, false, ◌≡◌, refl, ◌⊎◌, inl, inr, List, [], ◌∷◌, Option, none, some,
  arith, ◌==◌, Bool-cases, Option-cases, All, subst,
}
use ssheasy.Mux.Client.{
  Mux, Attempt, Fault, no_stream, no_header, no_status, refused, Dialed, failed, opened, is_closed,
  mux_session, on_session,
}
use ssheasy.Mux.Client.Laws.{IsBelow, IsGood, mux_session-IsGood}
use ssheasy.Mux.Race.{
  Phase, starting, talking, dropping, restarting, talking_again, ended, first_session,
  second_session, step_call, in_front, behind, step_at, Reaches, begin, calls, moves, dies,
}
use ssheasy.Mux.Race.Sessions.{
  IsSole, mux_session-IsSole, drop_session-IsSole, dies-IsSole, mux_session_grows,
  drop_session_grows,
}

-- The session under a call.
abbrev pub session_of : Phase → Option ℕ
session_of (talking s a b) = some s
session_of (talking_again s b) = some s
session_of (ended (opened s)) = some s
session_of _ = none

-- What a step leaves, from a state with sessions below `n`.
abbrev IsFine : ℕ → Phase × Mux → Type 0
IsFine n (p, m) = IsSole m × (n ≤ m.next) × IsBelow m.next (session_of p)

IsBelow-IsGood : (s : ℕ) (m : Mux) → IsGood (opened s, m) → s < m.next
IsBelow-IsGood s m (ordered, kept, live) = subst (IsBelow m.next) kept ordered.kept

on_session-cases :
    (a : Attempt) (s : ℕ) (m : Mux)
    → ((f : Fault) × (on_session a (opened s, m) ≡ (failed f, m)))
      ⊎ (on_session a (opened s, m) ≡ (opened s, m))
on_session-cases a s m = elim (Bool-cases a.stream_opens) [
  | inr e ↦ rw (e) (inl (no_stream, refl))
  | inl e ↦ elim (Bool-cases a.header_sent) [
    | inr e' ↦ rw (e, e') (inl (no_header, refl))
    | inl e' ↦
        rw (e, e')
          (elim (Option-cases a.status) [
            | inl n ↦ rw (n) (inl (no_status, refl))
            | inr (b, n) ↦ rw (n) (elim (Bool-cases (b == 1)) [
              | inl y ↦ rw (y) (inr refl)
              | inr y ↦ rw (y) (inl (refused, refl))
            ])
          ])
  ]
]

step_call-IsFine :
    (p : Phase) (m : Mux) → IsSole m → IsBelow m.next (session_of p) → IsFine m.next (step_call p m)
unfolding step_call
step_call-IsFine (starting a b) m h l =
    go (mux_session a m) (mux_session-IsSole a m h) (mux_session_grows a m)
      (mux_session-IsGood a m h.ordered)
  where
    go :
        (x : Dialed × Mux)
        → IsSole x.1
        → m.next ≤ x.1.next
        → IsGood x
        → IsFine m.next (first_session a b x)
    go (failed f, n) h g k = (h, g, tt)
    go (opened s, n) h g k = (h, g, IsBelow-IsGood s n k)
step_call-IsFine (talking s a b) m h l = elim (on_session-cases a s m) [
  | inl (f, e) ↦ rw (e) (h, omega arith, tt)
  | inr e ↦ rw (e) (h, omega arith, l)
]
step_call-IsFine (dropping b) m h l =
    (drop_session-IsSole m m.mux_sess refl h, drop_session_grows m m.mux_sess, tt)
step_call-IsFine (restarting b) m h l =
    go (mux_session b m) (mux_session-IsSole b m h) (mux_session_grows b m)
      (mux_session-IsGood b m h.ordered)
  where
    go :
        (x : Dialed × Mux)
        → IsSole x.1
        → m.next ≤ x.1.next
        → IsGood x
        → IsFine m.next (second_session b x)
    go (failed f, n) h g k = (h, g, tt)
    go (opened s, n) h g k = (h, g, IsBelow-IsGood s n k)
step_call-IsFine (talking_again s b) m h l = elim (on_session-cases b s m) [
  | inl (f, e) ↦ rw (e) (h, omega arith, tt)
  | inr e ↦ rw (e) (h, omega arith, l)
]
step_call-IsFine (ended d) m h l = (h, omega arith, l)

IsBelow-le : (o : Option ℕ) (n k : ℕ) → n ≤ k → IsBelow n o → IsBelow k o
IsBelow-le none n k l b = tt
IsBelow-le (some s) n k l b = omega arith

-- The calls with their sessions below `n`.
abbrev AreBelow : ℕ → List Phase → Type 0
AreBelow n ps = All (λ p. IsBelow n (session_of p)) ps

AreBelow-le : (ps : List Phase) (n k : ℕ) → n ≤ k → AreBelow n ps → AreBelow k ps
AreBelow-le [] n k l b = tt
AreBelow-le (p ∷ ps) n k l (b, bs) = (IsBelow-le (session_of p) n k l b, AreBelow-le ps n k l bs)

abbrev AreFine : ℕ → List Phase × Mux → Type 0
AreFine n (ps, m) = IsSole m × (n ≤ m.next) × AreBelow m.next ps

step_at-AreFine :
    (i : ℕ) (ps : List Phase) (m : Mux)
    → IsSole m
    → AreBelow m.next ps
    → AreFine m.next (step_at i ps m)
unfolding step_at
step_at-AreFine i [] m h b = (h, omega arith, tt)
step_at-AreFine zero (p ∷ ps) m h (b, bs) = go (step_call p m) (step_call-IsFine p m h b)
  where
    go : (x : Phase × Mux) → IsFine m.next x → AreFine m.next (in_front x ps)
    go (q, n) (h', l, b') = (h', l, (b', AreBelow-le ps m.next n.next l bs))
step_at-AreFine (suc i) (p ∷ ps) m h (b, bs) = go (step_at i ps m) (step_at-AreFine i ps m h bs)
  where
    go : (x : List Phase × Mux) → AreFine m.next x → AreFine m.next (behind p x)
    go (qs, n) (h', l, bs') = (h', l, (IsBelow-le (session_of p) m.next n.next l b, bs'))

Reaches-AreFine : (ps : List Phase) (m : Mux) → Reaches ps m → IsSole m × AreBelow m.next ps
Reaches-AreFine _ _ begin =
    (record { ordered = record { kept = tt; gone = tt }; sole = λ s l o. absurd (omega arith) }, tt)
Reaches-AreFine _ _ (calls a b ps m r) = let (h, bs) = Reaches-AreFine ps m r in (h, (tt, bs))
Reaches-AreFine _ _ (moves i ps m r) =
    let (h, bs) = Reaches-AreFine ps m r in
    let (h', l, bs') = step_at-AreFine i ps m h bs in (h', bs')
Reaches-AreFine _ _ (dies s ps m l r) =
    let (h, bs) = Reaches-AreFine ps m r in (dies-IsSole m s l h, bs)

-- On the kept session, or on one that is closed.
abbrev pub IsOnKept : Mux → Option ℕ → Type 0
IsOnKept m none = Unit
IsOnKept m (some s) = (m.mux_sess ≡ some s) ⊎ (is_closed s m.closed ≡ true)

IsOnKept-sole : (m : Mux) (o : Option ℕ) → IsSole m → IsBelow m.next o → IsOnKept m o
IsOnKept-sole m none h b = tt
IsOnKept-sole m (some s) h b = elim (Bool-cases (is_closed s m.closed)) [
  | inl c ↦ inr c
  | inr c ↦ inl (h.sole s b c)
]

-- However calls of dialMuxed interleave and sessions die, at most one session is open, the one in
-- muxSess; so every stream that a call obtained or waits for runs on muxSess, or on a closed session.
pub Reaches-IsOnKept :
    (ps : List Phase) (m : Mux)
    → Reaches ps m
    → ((s : ℕ) → s < m.next → is_closed s m.closed ≡ false → m.mux_sess ≡ some s)
      × All (λ p. IsOnKept m (session_of p)) ps
Reaches-IsOnKept ps m r = let (h, bs) = Reaches-AreFine ps m r in (h.sole, go h ps bs)
  where
    go : IsSole m → (ps : List Phase) → AreBelow m.next ps → All (λ p. IsOnKept m (session_of p)) ps
    go h [] b = tt
    go h (p ∷ ps) (b, bs) = (IsOnKept-sole m (session_of p) h b, go h ps bs)
