-- ===== src/Mux/Race/Sessions.antt =====
-- What muxSession and the drop of dialMuxed do to the sessions that are open.
use ssheasy.Base.{
  ℕ, suc, ◌<◌, ◌≤◌, true, false, ◌≡◌, refl, ◌∙◌, sym, ap, inl, inr, List, ◌∷◌, Option, none, some,
  arith, ◌==◌, Bool-cases, subst, false≢true, ◌≢◌,
}
use ssheasy.Mux.Client.{Mux, Attempt, is_closed, mux_session, establish, reuse, drop_session}
use ssheasy.Mux.Client.Laws.{IsNumbered, All-suc, drop_session-IsNumbered}

still_open : (t s : ℕ) (cs : List ℕ) → is_closed t (s ∷ cs) ≡ false → is_closed t cs ≡ false
unfolding is_closed
still_open t s cs o = ground arith

other_than : (t s : ℕ) (cs : List ℕ) → is_closed t (s ∷ cs) ≡ false → s ≢ t
unfolding is_closed
other_than t s cs o = ground arith

-- Every session that was made is the kept one or closed.
pub record IsSole (m : Mux) : Type 0 where
  pub ordered : IsNumbered m
  pub sole : (s : ℕ) → s < m.next → is_closed s m.closed ≡ false → m.mux_sess ≡ some s

-- A new session beside closed ones only.
new_sole :
    (m : Mux) (s : ℕ)
    → ((t : ℕ) → t < m.next → is_closed t m.closed ≡ true)
    → s < suc m.next
    → is_closed s m.closed ≡ false
    → some m.next ≡ some s
new_sole m s gone l o = elim (Bool-cases (s == m.next)) [
  | inl q ↦ ap some (ground arith)
  | inr q ↦ absurd (false≢true (sym o ∙ gone s (ground arith)))
]

establish-IsSole :
    (a : Attempt) (m : Mux)
    → ((s : ℕ) → s < m.next → is_closed s m.closed ≡ true)
    → IsSole m
    → IsSole (establish a m).1
establish-IsSole a m gone h = elim (Bool-cases a.ws_opens) [
  | inr e ↦ rw (e) h
  | inl e ↦ elim (Bool-cases a.client_made) [
    | inr e' ↦ rw (e, e') h
    | inl e' ↦
        rw (e, e')
          (record {
            ordered = record { kept = omega arith; gone = All-suc m.next m.closed h.ordered.gone };
            sole = λ s. new_sole m s gone;
          })
  ]
]

none-ne-some : {A : Type 0} {x : A} → ¬ (none ≡ some x)
none-ne-some h = cc

some_injective : {A : Type 0} {x y : A} → some x ≡ some y → x ≡ y
some_injective h = cc

-- Without a kept session that is open, all sessions are closed.
all_closed :
    (m : Mux) (o : Option ℕ)
    → m.mux_sess ≡ o
    → ((s : ℕ) → o ≡ some s → is_closed s m.closed ≡ true)
    → IsSole m
    → (s : ℕ) → s < m.next
    → is_closed s m.closed ≡ true
all_closed m o e gone h s l = elim (Bool-cases (is_closed s m.closed)) [
  | inl q ↦ q
  | inr q ↦ gone s (sym e ∙ h.sole s l q)
]

reuse-IsSole :
    (a : Attempt) (m : Mux) (o : Option ℕ) → m.mux_sess ≡ o → IsSole m → IsSole (reuse a m o).1
reuse-IsSole a m none e h =
    establish-IsSole a m (all_closed m none e (λ s q. absurd (none-ne-some q)) h) h
reuse-IsSole a m (some s) e h = elim (Bool-cases (is_closed s m.closed)) [
  | inl c ↦ rw (c) (
      establish-IsSole a m
        (all_closed m (some s) e
          (λ t q. subst (λ x. is_closed x m.closed ≡ true) (some_injective q) c) h)
        h)
  | inr c ↦ rw (c) h
]

pub drop_session-IsSole :
    (m : Mux) (o : Option ℕ) → m.mux_sess ≡ o → IsSole m → IsSole (drop_session m o)
drop_session-IsSole m none e h = h
drop_session-IsSole m (some s) e h = record {
  ordered = drop_session-IsNumbered m (some s) e h.ordered;
  sole = λ t l o.
      absurd (
        other_than t s m.closed o
          (some_injective (sym e ∙ h.sole t l (still_open t s m.closed o))));
}

pub dies-IsSole :
    (m : Mux) (s : ℕ) → s < m.next → IsSole m → IsSole (record m { closed = s ∷ m.closed })
dies-IsSole m s l h = record {
  ordered = record { kept = h.ordered.kept; gone = (l, h.ordered.gone) };
  sole = λ t b o. h.sole t b (still_open t s m.closed o);
}

pub mux_session-IsSole : (a : Attempt) (m : Mux) → IsSole m → IsSole (mux_session a m).1
unfolding mux_session
mux_session-IsSole a m h = reuse-IsSole a m m.mux_sess refl h

establish_grows : (a : Attempt) (m : Mux) → m.next ≤ (establish a m).1.next
establish_grows a m = ground arith

reuse_grows : (a : Attempt) (m : Mux) (o : Option ℕ) → m.next ≤ (reuse a m o).1.next
reuse_grows a m none = establish_grows a m
reuse_grows a m (some s) = elim (Bool-cases (is_closed s m.closed)) [
  | inl c ↦ rw (c) (establish_grows a m)
  | inr c ↦ rw (c) (omega arith)
]

pub mux_session_grows : (a : Attempt) (m : Mux) → m.next ≤ (mux_session a m).1.next
unfolding mux_session
mux_session_grows a m = reuse_grows a m m.mux_sess

pub drop_session_grows : (m : Mux) (o : Option ℕ) → m.next ≤ (drop_session m o).next
drop_session_grows m none = omega arith
drop_session_grows m (some s) = omega arith
