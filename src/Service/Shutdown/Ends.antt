-- ===== src/Service/Shutdown/Ends.antt =====
-- The counter of activeWebsocks is right in every state, and main does not wait for ever.
use ssheasy.Base.{
  ℕ, suc, ◌+◌, ◌≤◌, ◌≡◌, ◌≢◌, refl, ap, subst, ◌∙◌, ◌↔◌, ◌⊎◌, inl, inr, List, [], ◌∷◌, ◌++◌, All,
  none, some, Bool-cases, Option-cases, arith, length,
}
use ssheasy.Base.Int.{ℤ, pos, ◌+ℤ◌, ◌-ℤ◌, ltb_ℤ}
use ssheasy.Relay.{
  Event, websocket_up, websocket_down, connection_up, connection_down, audit, dial, respond, relay,
  close_target, close_websocket,
}
use ssheasy.Service.{drain}
use ssheasy.Service.Shutdown.{
  Phase, waiting, inside, finished, next, run, Thread, IsHandled, add, Step, here, there, Reaches,
  begin, arrives, steps, is_inside, busy, work, handle_wss-IsHandled,
}

none-ne-some : {A : Type 0} {x : A} → none ≢ some x
none-ne-some h = cc

some_injective : {A : Type 0} {x y : A} → some x ≡ some y → x ≡ y
some_injective h = cc

raised : (n : ℕ) (c : ℤ) → c ≡ pos n → c +ℤ pos 1 ≡ pos (n + 1)
unfolding ◌+ℤ◌
raised n c h = rw (h) (ground arith)

lowered : (n : ℕ) (c : ℤ) → c ≡ pos (n + 1) → c -ℤ pos 1 ≡ pos n
unfolding ◌-ℤ◌ ◌+ℤ◌
lowered n c h = rw (h) (ground arith)

kept :
    (n : ℕ) (c : ℤ) (p q : Phase)
    → some p ≡ some q
    → c ≡ pos (n + is_inside p)
    → c ≡ pos (n + is_inside q)
kept n c p q e h = subst (λ x. c ≡ pos (n + is_inside x)) (some_injective e) h

-- An event changes the counter as it changes the phase.
next-add :
    (n : ℕ) (c : ℤ) (p q : Phase) (e : Event)
    → next p e ≡ some q
    → c ≡ pos (n + is_inside p)
    → add e c ≡ pos (n + is_inside q)
next-add n c waiting q websocket_up e h =
    subst (λ x. c +ℤ pos 1 ≡ pos (n + is_inside x)) (some_injective e)
      (raised n c (h ∙ ap pos (omega arith)))
next-add n c inside q websocket_up e h = absurd (none-ne-some e)
next-add n c finished q websocket_up e h = absurd (none-ne-some e)
next-add n c waiting q websocket_down e h = absurd (none-ne-some e)
next-add n c inside q websocket_down e h =
    subst (λ x. c -ℤ pos 1 ≡ pos (n + is_inside x)) (some_injective e)
      (lowered n c h ∙ ap pos (omega arith))
next-add n c finished q websocket_down e h = absurd (none-ne-some e)
next-add n c p q connection_up e h = kept n c p q e h
next-add n c p q connection_down e h = kept n c p q e h
next-add n c p q (audit a b m s) e h = kept n c p q e h
next-add n c p q (dial a) e h = kept n c p q e h
next-add n c p q (respond b) e h = kept n c p q e h
next-add n c p q relay e h = kept n c p q e h
next-add n c p q close_target e h = kept n c p q e h
next-add n c p q close_websocket e h = kept n c p q e h

run-next :
    (p q : Phase) (e : Event) (es : List Event)
    → next p e ≡ some q
    → run (e ∷ es) p ≡ some finished
    → run es q ≡ some finished
unfolding run
run-next p q e es n h = rw (n) at h

-- A step keeps the threads in order and the counter, `k` more than they are busy, right.
step-keeps :
    (ts ts' : List Thread) (c c' : ℤ)
    → Step ts c ts' c'
    → All IsHandled ts
    → All IsHandled ts' × ((k : ℕ) → c ≡ pos (k + busy ts) → c' ≡ pos (k + busy ts'))
step-keeps _ _ _ _ (here p q e es ts c n) (h, hs) = (
  (run-next p q e es n h, hs),
  λ k same. next-add (k + busy ts) c p q e n (same ∙ ap pos (omega arith)) ∙ ap pos (omega arith),
)
step-keeps _ _ _ _ (there t ts ts' c c' s) (h, hs) =
    let (hs', counts) = step-keeps ts ts' c c' s hs in
    (
      (h, hs'),
      λ k same. counts (k + is_inside t.phase) (same ∙ ap pos (omega arith)) ∙ ap pos (omega arith),
    )

Reaches-keeps : (ts : List Thread) (c : ℤ) → Reaches ts c → All IsHandled ts × (c ≡ pos (busy ts))
Reaches-keeps _ _ begin = (tt, refl)
Reaches-keeps _ _ (arrives w v t ts c r) =
    let (h, same) = Reaches-keeps ts c r in
    ((handle_wss-IsHandled w v t, h), same ∙ ap pos (omega arith))
Reaches-keeps _ _ (steps ts ts' c c' r s) =
    let (h, same) = Reaches-keeps ts c r in
    let (h', counts) = step-keeps ts ts' c c' s h in
    (h', counts 0 (same ∙ ap pos (omega arith)) ∙ ap pos (omega arith))

-- In every state that the server comes to, however its calls of handleWss interleave, activeWebsocks is
-- the number of calls that run, and the loop of main ends at a load exactly if none does.
pub Reaches-busy :
    (ts : List Thread) (c : ℤ)
    → Reaches ts c
    → (c ≡ pos (busy ts)) × ((drain (c ∷ []) ≡ some 0) ↔ (busy ts ≡ 0))
unfolding drain
Reaches-busy ts c r = let same = (Reaches-keeps ts c r).1 in (same, rw (same) (ground arith))

-- Runs of `k` steps in which no connection arrives.
pub data Runs : ℕ → List Thread → ℤ → List Thread → ℤ → Type 0 where
  stops : (ts : List Thread) (c : ℤ) → Runs 0 ts c ts c
  goes_on :
      (k : ℕ) (ts ts' ts'' : List Thread) (c c' c'' : ℤ)
      → Step ts c ts' c'
      → Runs k ts' c' ts'' c''
      → Runs (suc k) ts c ts'' c''

step-work : (ts ts' : List Thread) (c c' : ℤ) → Step ts c ts' c' → work ts ≡ suc (work ts')
step-work _ _ _ _ (here p q e es ts c n) = omega arith
step-work _ _ _ _ (there t ts ts' c c' s) = let less = step-work ts ts' c c' s in omega arith

Runs-work : (k : ℕ) (ts ts' : List Thread) (c c' : ℤ) → Runs k ts c ts' c' → k + work ts' ≡ work ts
Runs-work _ _ _ _ _ (stops ts c) = omega arith
Runs-work _ _ _ _ _ (goes_on k ts ts' ts'' c c' c'' s r) =
    let less = step-work ts ts' c c' s in let rest = Runs-work k ts' ts'' c' c'' r in omega arith

Runs-Reaches :
    (k : ℕ) (ts ts' : List Thread) (c c' : ℤ) → Reaches ts c → Runs k ts c ts' c' → Reaches ts' c'
Runs-Reaches _ _ _ _ _ reached (stops ts c) = reached
Runs-Reaches _ _ _ _ _ reached (goes_on k ts ts' ts'' c c' c'' s r) =
    Runs-Reaches k ts' ts'' c' c'' (steps ts ts' c c' reached s) r

-- Some thread can take a step.
abbrev pub CanStep : List Thread → ℤ → Type 0
CanStep ts c = (ts' : List Thread) × (c' : ℤ) × Step ts c ts' c'

run-first :
    (p : Phase) (e : Event) (es : List Event)
    → run (e ∷ es) p ≡ some finished
    → (q : Phase) × (next p e ≡ some q)
unfolding run
run-first p e es h = elim (Option-cases (next p e)) [
  | inl n ↦ absurd (none-ne-some (rw (n) at h))
  | inr (q, n) ↦ (q, n)
]

first_ready :
    (p : Phase) (todo : List Event) (ts : List Thread) (c : ℤ)
    → run todo p ≡ some finished
    → CanStep ts c ⊎ (busy ts ≡ 0)
    → CanStep (record { phase = p; todo = todo } ∷ ts) c ⊎ (is_inside p + busy ts ≡ 0)
unfolding run
first_ready p (e ∷ es) ts c h rest =
    let (q, n) = run-first p e es h in
    inl (record { phase = q; todo = es } ∷ ts, add e c, here p q e es ts c n)
first_ready p [] ts c h (inl (ts', c', s)) = inl (
  record { phase = p; todo = [] } ∷ ts',
  c',
  there (record { phase = p; todo = [] }) ts ts' c c' s,
)
first_ready p [] ts c h (inr idle) =
    let over : is_inside p ≡ 0 = ap is_inside (some_injective h) in inr (omega arith)

-- Where no step is possible, no call runs.
ready : (ts : List Thread) (c : ℤ) → All IsHandled ts → CanStep ts c ⊎ (busy ts ≡ 0)
ready [] c h = inr refl
ready (t ∷ ts) c (h, hs) = first_ready t.phase t.todo ts c h (ready ts c hs)

drain-zero :
    (loads : List ℤ) → (n : ℕ) × (n ≤ length loads) × (drain (loads ++ pos 0 ∷ []) ≡ some n)
unfolding drain
drain-zero [] = (0, omega arith, refl)
drain-zero (a ∷ loads) =
    let (n, le, e) = drain-zero loads in
    elim (Bool-cases (ltb_ℤ (pos 0) a)) [
      | inl q ↦ (suc n, omega arith, rw (q, e) refl)
      | inr q ↦ (0, omega arith, rw (q) refl)
    ]

-- Once no connection arrives any more, the calls take at most as many steps as they have events left,
-- in whatever order, and when none is left to take, main goes on at the next load of the counter, if it
-- did not at an earlier one.
pub Runs-ends :
    (k : ℕ) (ts ts' : List Thread) (c c' : ℤ)
    → Reaches ts c
    → Runs k ts c ts' c'
    → (k ≤ work ts)
      × (CanStep ts' c'
          ⊎ ((loads : List ℤ) → (n : ℕ) × (n ≤ length loads) × (drain (loads ++ c' ∷ []) ≡ some n)))
Runs-ends k ts ts' c c' reached r =
    let left = Runs-work k ts ts' c c' r in
    let (h, same) = Reaches-keeps ts' c' (Runs-Reaches k ts ts' c c' reached r) in
    (
      omega arith,
      elim (ready ts' c' h) [
        | inl s ↦ inl s
        | inr idle ↦ inr (λ loads. rw (same, idle) (drain-zero loads))
      ],
    )
