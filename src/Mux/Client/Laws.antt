-- ===== src/Mux/Client/Laws.antt =====
-- Which session a connection of the browser runs on.
use ssheasy.Base.{
  ℕ, suc, ◌<◌, Bool, true, false, ◌≡◌, ◌≢◌, refl, inl, inr, List, [], ◌∷◌, Option, none, some,
  arith, ◌==◌, Bool-cases, Option-cases, All, subst,
}
use ssheasy.Mux.Client.{
  Mux, Attempt, refused, Dialed, failed, opened, is_closed, mux_session, open_mux_stream,
  dial_muxed, con, Connection, stream, dedicated, no_connection, establish, reuse, on_session,
  drop_session, retry, or_legacy,
}

abbrev pub IsBelow : ℕ → Option ℕ → Type 0
IsBelow n none = Unit
IsBelow n (some s) = s < n

-- Every session that the client knows has a number below `next`.
pub record IsNumbered (m : Mux) : Type 0 where
  pub kept : IsBelow m.next m.mux_sess
  pub gone : All (λ s. s < m.next) m.closed

fresh_open : (n : ℕ) (cs : List ℕ) → All (λ s. s < n) cs → is_closed n cs ≡ false
unfolding is_closed
fresh_open n [] h = refl
fresh_open n (c ∷ cs) (h, hs) = ground (arith, fresh_open n cs hs)

pub All-suc : (n : ℕ) (cs : List ℕ) → All (λ s. s < n) cs → All (λ s. s < suc n) cs
All-suc n [] h = tt
All-suc n (c ∷ cs) (h, hs) = (omega arith, All-suc n cs hs)

-- What a call leaves: the numbering, and a stream on the session that is kept and open.
abbrev pub IsGood : Dialed × Mux → Type 0
IsGood (failed f, m) = IsNumbered m
IsGood (opened s, m) = IsNumbered m × (m.mux_sess ≡ some s) × (is_closed s m.closed ≡ false)

establish-IsGood : (a : Attempt) (m : Mux) → IsNumbered m → IsGood (establish a m)
establish-IsGood a m h = elim (Bool-cases a.ws_opens) [
  | inr e ↦ rw (e) h
  | inl e ↦ elim (Bool-cases a.client_made) [
    | inr e' ↦ rw (e, e') h
    | inl e' ↦
        rw (e, e')
          (
            record { kept = omega arith; gone = All-suc m.next m.closed h.gone },
            refl,
            fresh_open m.next m.closed h.gone,
          )
  ]
]

reuse-IsGood :
    (a : Attempt) (m : Mux) (o : Option ℕ) → m.mux_sess ≡ o → IsNumbered m → IsGood (reuse a m o)
reuse-IsGood a m none e h = establish-IsGood a m h
reuse-IsGood a m (some s) e h = elim (Bool-cases (is_closed s m.closed)) [
  | inl c ↦ rw (c) (establish-IsGood a m h)
  | inr c ↦ rw (c) (h, e, c)
]

pub mux_session-IsGood : (a : Attempt) (m : Mux) → IsNumbered m → IsGood (mux_session a m)
unfolding mux_session
mux_session-IsGood a m h = reuse-IsGood a m m.mux_sess refl h

on_session-IsGood : (a : Attempt) (d : Dialed × Mux) → IsGood d → IsGood (on_session a d)
on_session-IsGood a (failed f, m) h = h
on_session-IsGood a (opened s, m) h = elim (Bool-cases a.stream_opens) [
  | inr e ↦ rw (e) h.0
  | inl e ↦ elim (Bool-cases a.header_sent) [
    | inr e' ↦ rw (e, e') h.0
    | inl e' ↦
        rw (e, e')
          (elim (Option-cases a.status) [
            | inl n ↦ rw (n) h.0
            | inr (b, n) ↦
                rw (n) (elim (Bool-cases (b == 1)) [ inl y ↦ rw (y) h | inr y ↦ rw (y) h.0 ])
          ])
  ]
]

open_mux_stream-IsGood : (a : Attempt) (m : Mux) → IsNumbered m → IsGood (open_mux_stream a m)
unfolding open_mux_stream
open_mux_stream-IsGood a m h = on_session-IsGood a (mux_session a m) (mux_session-IsGood a m h)

pub drop_session-IsNumbered :
    (m : Mux) (s : Option ℕ) → m.mux_sess ≡ s → IsNumbered m → IsNumbered (drop_session m s)
drop_session-IsNumbered m none e h = h
drop_session-IsNumbered m (some s) e h = record {
  kept = tt;
  gone = (subst (IsBelow m.next) e h.kept, h.gone);
}

retry-IsGood : (b : Attempt) (d : Dialed × Mux) → IsGood d → IsGood (retry b d)
retry-IsGood b (opened s, m) h = h
retry-IsGood b (failed f, m) h =
    open_mux_stream-IsGood b (drop_session m m.mux_sess)
      (drop_session-IsNumbered m m.mux_sess refl h)

dial_muxed-IsGood : (a b : Attempt) (m : Mux) → IsNumbered m → IsGood (dial_muxed a b m)
unfolding dial_muxed
dial_muxed-IsGood a b m h = retry-IsGood b (open_mux_stream a m) (open_mux_stream-IsGood a m h)

-- The connection is a stream only of the session that the client keeps, and that session is open.
abbrev IsSettled : Connection × Mux → Type 0
IsSettled (stream s, m) = IsNumbered m × (m.mux_sess ≡ some s) × (is_closed s m.closed ≡ false)
IsSettled (dedicated, m) = IsNumbered m
IsSettled (no_connection, m) = IsNumbered m

-- Whatever the outside does in the two attempts, con keeps the numbering, and a stream that it
-- returns runs on the kept session, which is open.
con-IsSettled :
    (a b : Attempt) (legacy : Bool) (m : Mux) → IsNumbered m → IsSettled (con a b legacy m)
unfolding con
con-IsSettled a b legacy m h = settle legacy (dial_muxed a b m) (dial_muxed-IsGood a b m h)
  where
    settle : (l : Bool) (d : Dialed × Mux) → IsGood d → IsSettled (or_legacy l d)
    settle l (opened s, m) h = h
    settle true (failed f, m) h = h
    settle false (failed f, m) h = h

-- The closed sessions stay closed.
closed_grows :
    (b : Attempt) (s : ℕ) (m : Mux)
    → is_closed s m.closed ≡ true
    → is_closed s (open_mux_stream b m).1.closed ≡ true
unfolding open_mux_stream mux_session
closed_grows b s m h = on_session_closed (mux_session b m) (reuse_closed m.mux_sess)
  where
    on_session_closed :
        (d : Dialed × Mux)
        → is_closed s d.1.closed ≡ true
        → is_closed s (on_session b d).1.closed ≡ true
    on_session_closed (failed f, n) h = h
    on_session_closed (opened t, n) h = ground arith

    reuse_closed : (o : Option ℕ) → is_closed s (reuse b m o).1.closed ≡ true
    reuse_closed none = ground arith
    reuse_closed (some t) = ground arith

refused_first :
    (a : Attempt) (m : Mux) (s status : ℕ)
    → m.mux_sess ≡ some s
    → is_closed s m.closed ≡ false
    → a.stream_opens ≡ true
    → a.header_sent ≡ true
    → a.status ≡ some status
    → status ≢ 1
    → open_mux_stream a m ≡ (failed refused, m)
unfolding open_mux_stream mux_session
refused_first a m s status kept live o h st ne =
    rw (kept, open_mux_stream) (rw (live) (rw (o, h, st) (ground arith)))

-- A target that the proxy refuses closes the open session under every stream that it carries: the
-- status byte comes over a session that works, and dialMuxed closes it before it tries again.
pub dial_muxed_closes :
    (a b : Attempt) (m : Mux) (s status : ℕ)
    → m.mux_sess ≡ some s
    → is_closed s m.closed ≡ false
    → a.stream_opens ≡ true
    → a.header_sent ≡ true
    → a.status ≡ some status
    → status ≢ 1
    → is_closed s (dial_muxed a b m).1.closed ≡ true
unfolding dial_muxed
dial_muxed_closes a b m s status kept live o h st ne =
    rw (refused_first a m s status kept live o h st ne, kept, dial_muxed)
      (closed_grows b s (drop_session m (some s)) (unfold is_closed in ground arith))
