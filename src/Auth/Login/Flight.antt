-- ===== src/Auth/Login/Flight.antt =====
-- proxy/auth.go: the POST branch of handleLogin for requests in flight together. loginLocked and
-- recordLogin each hold the mutex, but handleLogin does not hold it between them, and waits a second
-- there; so other requests come between the two halves of handle_post.
use ssheasy.Base.{
  ℕ, suc, ◌+◌, ◌≤◌, ◌<◌, true, false, ◌≡◌, refl, List, [], ◌∷◌, ◌++◌, arith, if◌then◌else◌, All,
  ◌&&◌, Bool-cases, inl, inr,
}
use ssheasy.Base.Text.{Bytes, bytes_eq_iff}
use ssheasy.Http.{Request}
use ssheasy.Auth.Lockout.{LoginTable, login_locked}
use ssheasy.Auth.ClientIp.{client_ip}
use ssheasy.Auth.Config.{AuthConfig}
use ssheasy.Auth.Login.{Instants, code_ok, verify_post}
use ssheasy.Auth.Login.Halves.{
  is_from, count, left-none, verify-own, verify-other, count-append, some_or_none, one_more,
}
use ssheasy.Auth.Login.Laws.{
  is_rejection, IsWithin, left, InBudget, sweep-budget, fail-budget, locked-budget, left-fail,
}

-- The table, the requests that have passed the lockout test and not yet been recorded, and the
-- rejections that the address `ip` got.
pub record Logins : Type 0 where
  pub table : LoginTable
  pub in_flight : List (Request × Instants)
  pub rejected : ℕ

module _ (hmac_sha1 hmac_sha256 : Bytes → Bytes → Bytes) (c : AuthConfig) (ip : Bytes)
    (start : ℕ) where
  -- A request of the window that begins at `start`; one from `ip` has a wrong code.
  abbrev pub IsGuess : Request × Instants → Type 0
  IsGuess p =
      IsWithin start p.1 × (is_from ip p ≡ true → code_ok hmac_sha1 hmac_sha256 c p.0 p.1 ≡ false)

  -- The second half of handle_post, for one of the requests in flight.
  abbrev pub verified : Logins → List (Request × Instants) → Request × Instants → Logins
  verified s rest p =
      let (reply, m) = verify_post hmac_sha1 hmac_sha256 c p.0 p.1 s.table in
      record {
        table = m;
        in_flight = rest;
        rejected = (if is_from ip p && is_rejection reply then 1 else 0) + s.rejected;
      }

  -- One half of one request; no more than `most` requests of `ip` are in flight together.
  pub data Step (most : ℕ) : Logins → Logins → Type 0 where
    turned_away :
        (s : Logins) (p : Request × Instants)
        → IsGuess p
        → (login_locked (client_ip p.0) p.1.checked s.table).0 ≡ true
        → Step most s (record s { table = (login_locked (client_ip p.0) p.1.checked s.table).1 })
    passes :
        (s : Logins) (p : Request × Instants)
        → IsGuess p
        → (login_locked (client_ip p.0) p.1.checked s.table).0 ≡ false
        → count ip s.in_flight < most
        → Step most s (record s {
          table = (login_locked (client_ip p.0) p.1.checked s.table).1;
          in_flight = p ∷ s.in_flight;
        })
    verifies :
        (s : Logins) (before after : List (Request × Instants)) (p : Request × Instants)
        → s.in_flight ≡ before ++ p ∷ after
        → Step most s (verified s (before ++ after) p)

  pub data Reaches (most : ℕ) (m : LoginTable) : Logins → Type 0 where
    begin : Reaches most m (record { table = m; in_flight = []; rejected = 0 })
    then_step : (s s' : Logins) → Reaches most m s → Step most s s' → Reaches most m s'

  -- With something left, the rejections are paid for; with nothing left, none but those in flight follow.
  record IsPaid (budget k : ℕ) (s : Logins) : Type 0 where
    in_budget : InBudget start (s.table ip)
    guesses : All IsGuess s.in_flight
    some_left : 1 ≤ left (s.table ip) → s.rejected + left (s.table ip) ≤ budget
    few : 1 ≤ left (s.table ip) → count ip s.in_flight ≤ suc k
    none_left : left (s.table ip) ≡ 0 → s.rejected + count ip s.in_flight ≤ budget + k

  -- Only the entry of `ip` matters, what is in flight, and the rejections.
  same-IsPaid :
      (budget k : ℕ) (s s' : Logins)
      → s'.table ip ≡ s.table ip
      → All IsGuess s'.in_flight
      → count ip s'.in_flight ≤ count ip s.in_flight
      → s'.rejected ≡ s.rejected
      → IsPaid budget k s
      → IsPaid budget k s'
  same-IsPaid budget k s s' e g l r h = record {
    in_budget = rw (e) h.in_budget;
    guesses = g;
    some_left = rw (e, r) h.some_left;
    few = λ q. omega (arith, h.few (rw (← e) q));
    none_left = λ q. omega (arith, h.none_left (rw (← e) q), r);
  }

  swept :
      (m : LoginTable) (p : Request × Instants)
      → IsGuess p
      → InBudget start (m ip)
      → (login_locked (client_ip p.0) p.1.checked m).1 ip ≡ m ip
  unfolding login_locked
  swept m p g b = sweep-budget hmac_sha1 hmac_sha256 c ip start p.1.checked m (g.0).in_time b

  -- A request of `ip` that passes has something left.
  passes-left :
      (m : LoginTable) (p : Request × Instants)
      → IsGuess p
      → InBudget start (m ip)
      → is_from ip p ≡ true
      → (login_locked (client_ip p.0) p.1.checked m).0 ≡ false
      → 1 ≤ left (m ip)
  unfolding login_locked
  passes-left m p g b e q =
      let same : client_ip p.0 ≡ ip = (bytes_eq_iff (client_ip p.0) ip).0 e in
      locked-budget hmac_sha1 hmac_sha256 c start p.1.checked (m ip) (g.0).in_time b
        (rw (← swept m p g b) (rw (same) at q))

  passes-IsPaid :
      (budget k : ℕ) (s : Logins) (p : Request × Instants)
      → IsGuess p
      → (login_locked (client_ip p.0) p.1.checked s.table).0 ≡ false
      → count ip s.in_flight < suc k
      → IsPaid budget k s
      → IsPaid budget k (record s {
        table = (login_locked (client_ip p.0) p.1.checked s.table).1;
        in_flight = p ∷ s.in_flight;
      })
  unfolding count
  passes-IsPaid budget k s p g q l h =
      let e = swept s.table p g h.in_budget in
      elim (Bool-cases (is_from ip p)) [
        | inl f ↦
            let some : 1 ≤ left (s.table ip) = passes-left s.table p g h.in_budget f q in
            record {
              in_budget = rw (e) h.in_budget;
              guesses = (g, h.guesses);
              some_left = rw (e) h.some_left;
              few = λ _. rw (f) (omega arith);
              none_left = λ n. absurd (let n' : left (s.table ip) ≡ 0 = rw (← e) n in omega arith);
            }
        | inr f ↦
            same-IsPaid budget k s
              (record s {
                table = (login_locked (client_ip p.0) p.1.checked s.table).1;
                in_flight = p ∷ s.in_flight;
              })
              e (g, h.guesses) (rw (f) (omega arith)) refl h
      ]

  -- The guesses in front of one, that one, and those behind it.
  parted :
      (before after : List (Request × Instants)) (p : Request × Instants)
      → All IsGuess (before ++ p ∷ after)
      → All IsGuess (before ++ after) × IsGuess p
  parted [] after p (g, gs) = (gs, g)
  parted (q ∷ before) after p (g, gs) = let (hs, h) = parted before after p gs in ((g, hs), h)

  own-IsPaid :
      (budget k : ℕ) (s : Logins) (rest : List (Request × Instants)) (p : Request × Instants)
      → is_from ip p ≡ true
      → IsGuess p
      → All IsGuess rest
      → count ip s.in_flight ≡ suc (count ip rest)
      → IsPaid budget k s
      → IsPaid budget k (verified s rest p)
  own-IsPaid budget k s rest p f g gs n h =
      let (r, e) = verify-own hmac_sha1 hmac_sha256 c ip p s.table f (g.1 f) in
      let o = s.table ip in
      let t = p.1 in
      let less = left-fail hmac_sha1 hmac_sha256 c t.recorded t.locked o in
      let none' = left-none t.recorded t.locked o in
      let kept : InBudget start ((verified s rest p).table ip) = rw (e) (
        fail-budget hmac_sha1 hmac_sha256 c start t.recorded t.locked o (g.0).from_start
          (g.0).set_after h.in_budget) in
      elim (some_or_none (left o)) [
        | inl q ↦
            let paid = h.some_left q in
            let few' : count ip rest ≤ suc k = omega (arith, h.few q, n) in
            let last : s.rejected + 1 + count ip rest ≤ budget + k =
              omega (arith, paid, h.few q, n, q) in
            record {
              in_budget = kept;
              guesses = gs;
              some_left = rw (e, f, r) (λ _. omega (arith, less, paid, q));
              few = λ _. few';
              none_left = rw (e, f, r) (λ _. one_more s.rejected (count ip rest) (budget + k) last);
            }
        | inr q ↦
            let nothing = none' q in
            let flown : s.rejected + 1 + count ip rest ≤ budget + k =
              omega (arith, h.none_left q, n) in
            record {
              in_budget = kept;
              guesses = gs;
              some_left = rw (e) (λ q'. absurd (omega (arith, nothing, q')));
              few = rw (e) (λ q'. absurd (omega (arith, nothing, q')));
              none_left =
                  rw (e, f, r) (λ _. one_more s.rejected (count ip rest) (budget + k) flown);
            }
      ]

  verifies-IsPaid :
      (budget k : ℕ) (s : Logins) (before after : List (Request × Instants))
      (p : Request × Instants)
      → s.in_flight ≡ before ++ p ∷ after
      → IsPaid budget k s
      → IsPaid budget k (verified s (before ++ after) p)
  verifies-IsPaid budget k s before after p e h =
      let (gs, g) = parted before after p (rw (← e) h.guesses) in
      let total = count-append ip before (p ∷ after) in
      let others = count-append ip before after in
      let own : (if is_from ip p then 1 else 0) + count ip after ≡ count ip (p ∷ after) =
        unfold count in refl in
      elim (Bool-cases (is_from ip p)) [
        | inl f ↦
            own-IsPaid budget k s (before ++ after) p f g gs
              (rw (e) (ground (arith, total, others, own, f))) h
        | inr f ↦
            same-IsPaid budget k s (verified s (before ++ after) p)
              (verify-other hmac_sha1 hmac_sha256 c ip p s.table f) gs
              (rw (e) (ground (arith, total, others, own, f))) (rw (f) (omega arith)) h
      ]

  Step-IsPaid :
      (budget k : ℕ) (s s' : Logins) → Step (suc k) s s' → IsPaid budget k s → IsPaid budget k s'
  Step-IsPaid budget k _ _ (turned_away s p g q) h =
      same-IsPaid budget k s
        (record s { table = (login_locked (client_ip p.0) p.1.checked s.table).1 })
        (swept s.table p g h.in_budget) h.guesses (omega arith) refl h
  Step-IsPaid budget k _ _ (passes s p g q l) h = passes-IsPaid budget k s p g q l h
  Step-IsPaid budget k _ _ (verifies s before after p e) h =
      verifies-IsPaid budget k s before after p e h

  Reaches-IsPaid :
      (k : ℕ) (m : LoginTable) (s : Logins)
      → InBudget start (m ip)
      → Reaches (suc k) m s
      → IsPaid (left (m ip)) k s
  unfolding count
  Reaches-IsPaid k m _ b begin = record {
    in_budget = b;
    guesses = tt;
    some_left = λ q. omega arith;
    few = λ q. omega arith;
    none_left = λ q. omega arith;
  }
  Reaches-IsPaid k m _ b (then_step s s' r t) =
      Step-IsPaid (left (m ip)) k s s' t (Reaches-IsPaid k m s b r)

  -- In any window of 24 hours in which no request of an address carries a right code, however the halves
  -- of the requests interleave, also with those of other addresses: with at most k + 1 requests of the
  -- address in flight together, it gets at most k more wrong codes checked than its counter has left.
  -- It has ten left for a new
  -- address; for another one, its last failure is taken to lie in the window, and its lock, if it has
  -- one, to last to the end of the window.
  pub Reaches-rejected :
      (k : ℕ) (m : LoginTable) (s : Logins)
      → InBudget start (m ip)
      → Reaches (suc k) m s
      → s.rejected ≤ left (m ip) + k
  Reaches-rejected k m s b r =
      let h = Reaches-IsPaid k m s b r in
      elim (some_or_none (left (s.table ip))) [
        | inl q ↦ omega (arith, h.some_left q)
        | inr q ↦ omega (arith, h.none_left q)
      ]
