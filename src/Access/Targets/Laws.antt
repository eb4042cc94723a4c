-- ===== src/Access/Targets/Laws.antt =====
-- What isAllowedTarger answers, and what it does to the lock.
use ssheasy.Base.{
  ℕ, suc, ◌+◌, true, false, ◌≡◌, refl, ◌↔◌, ◌⊎◌, inl, inr, List, [], ◌∷◌, some, arith,
  if◌then◌else◌, Bool-cases,
}
use ssheasy.Base.Text.{Bytes, bytes_eq_iff}
use ssheasy.Access.Targets.{
  Targets, initial, r_lock, r_unlock, is_target, is_allowed_targer, set_black_list, answers, waits,
}

abbrev pub IsIn : Bytes → List Bytes → Type 0
IsIn host [] = ⊥
IsIn host (h ∷ hs) = (host ≡ h) ⊎ IsIn host hs

is_target_iff : (hs : List Bytes) (host : Bytes) → (is_target hs host ≡ true) ↔ IsIn host hs
unfolding is_target
is_target_iff [] host = ground arith
is_target_iff (h ∷ hs) host = ground (arith, is_target_iff hs host, bytes_eq_iff host h)

-- A target is refused exactly when it stands in the black list as it is written.
pub is_allowed_targer_iff :
    (host : Bytes) (t : Targets)
    → ((is_allowed_targer host t).0 ≡ false) ↔ IsIn host t.blacklisted_targets
unfolding is_allowed_targer
is_allowed_targer_iff host t = ground (arith, is_target_iff t.blacklisted_targets host)

-- A sequence of connection requests.
pub check_all : List Bytes → Targets → Targets
check_all [] t = t
check_all (host ∷ hosts) t = check_all hosts (is_allowed_targer host t).1

abbrev pub refusals : List Bytes → List Bytes → ℕ
refusals banned [] = 0
refusals banned (host ∷ hosts) =
    if is_target banned host then suc (refusals banned hosts) else refusals banned hosts

pub check_all-readers :
    (hosts : List Bytes) (t : Targets)
    → ((check_all hosts t).readers ≡ refusals t.blacklisted_targets hosts + t.readers)
      × ((check_all hosts t).blacklisted_targets ≡ t.blacklisted_targets)
unfolding check_all is_allowed_targer
check_all-readers [] t = (omega arith, refl)
check_all-readers (host ∷ hosts) t = elim (Bool-cases (is_target t.blacklisted_targets host)) [
  | inl e ↦ rw (e, is_allowed_targer) (ground (arith, check_all-readers hosts (r_lock t)))
  | inr e ↦
      rw (e, is_allowed_targer) (ground (arith, check_all-readers hosts (r_unlock (r_lock t))))
]

-- From the start of the program and after any sequence of requests, setBlackList proceeds exactly
-- when none of them was for a listed target: each refused one leaves a reader on the lock for good.
pub set_black_list-check_all :
    (hosts banned : List Bytes)
    → let t = check_all hosts initial in
      let listed = initial.blacklisted_targets in
      (refusals listed hosts ≡ 0
        → set_black_list (some banned) t
          ≡ answers 200 (record { blacklisted_targets = banned; readers = 0 }))
      × (¬ (refusals listed hosts ≡ 0) → set_black_list (some banned) t ≡ waits)
unfolding set_black_list
set_black_list-check_all hosts banned = ground (arith, check_all-readers hosts initial)
