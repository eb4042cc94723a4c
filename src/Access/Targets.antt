-- ===== src/Access/Targets.antt =====
-- proxy/main.go: isAllowedTarger, with the read lock that it takes, and the operator's handlers for
-- the list of targets in proxy/admin.go.
pub mod Laws
use ssheasy.Base.{
  ℕ, suc, ◌+◌, ◌-◌, ◌==◌, Bool, true, false, ◌||◌, not, List, [], ◌∷◌, Option, none, some,
  if◌then◌else◌,
}
use ssheasy.Base.Text.{Bytes, codes, bytes_eq}

-- blacklistedTargets, and how many readers hold blacklistMu.
pub record Targets : Type 0 where
  pub blacklisted_targets : List Bytes
  pub readers : ℕ

abbrev pub initial : Targets
initial = record {
  blacklisted_targets = codes "localhost" ∷ codes "127.0.0.1" ∷ codes "::1" ∷ [];
  readers = 0;
}

-- RLock and RUnlock of a sync.RWMutex that no writer holds.
abbrev pub r_lock : Targets → Targets
r_lock t = record t { readers = t.readers + 1 }

abbrev pub r_unlock : Targets → Targets
r_unlock t = record t { readers = t.readers - 1 }

unfoldable pub is_target : List Bytes → Bytes → Bool
is_target [] host = false
is_target (h ∷ hs) host = bytes_eq host h || is_target hs host

-- isAllowedTarger: the return in the loop comes before RUnlock.
unfoldable pub is_allowed_targer : Bytes → Targets → Bool × Targets
is_allowed_targer host t =
    let held = r_lock t in
    if is_target t.blacklisted_targets host then (false, held) else (true, r_unlock held)

-- getBlackList
unfoldable pub get_black_list : Targets → List Bytes × Targets
get_black_list t = (t.blacklisted_targets, r_unlock (r_lock t))

-- What a handler does: it answers a status, or its Lock waits for a reader.
pub data Outcome : Type 0 where
  answers : ℕ → Targets → Outcome
  waits : Outcome

-- setBlackList, from the decoded body. Lock proceeds when no reader holds the lock.
unfoldable pub set_black_list : Option (List Bytes) → Targets → Outcome
set_black_list none t = answers 400 t
set_black_list (some hosts) t =
    if t.readers == 0 then answers 200 (record t { blacklisted_targets = hosts }) else waits
