-- ===== src/Traffic.antt =====
-- proxy/main.go: limitedWriter, and the operator's settings of the limits in proxy/admin.go. The
-- token bucket of golang.org/x/time/rate is not modelled, only the calls of its WaitN.
pub mod Laws
use ssheasy.Base.{
  ℕ, ◌+◌, Bool, true, false, List, [], ◌∷◌, ◌++◌, Option, none, some, if◌then◌else◌, length, ltb,
  ◌==◌,
}
use ssheasy.Base.Int.{ℤ, pos, ltb_ℤ}
use ssheasy.Base.Text.{Bytes, codes, bytes_eq}
use ssheasy.Http.{Header, values}

-- freeLimit, maxBurst and maxLimitedRate, over the type of rate.Limit.
pub record TrafficLimits {ℓ} (R : Type ℓ) : Type ℓ where
  pub free_limit : ℤ
  pub max_burst : ℤ
  pub max_limited_rate : R

-- rateReq
pub record RateReq {ℓ} (R : Type ℓ) : Type ℓ where
  pub free_limit : ℤ
  pub max_burst : ℤ
  pub rate : R

module _ {ℓ} {R : Type ℓ} (positive : R → Bool) where
  -- setRate, from the decoded body: the status that it answers, and the limits behind it.
  unfoldable pub set_rate : Option (RateReq R) → TrafficLimits R → ℕ × TrafficLimits R
  set_rate none l = (400, l)
  set_rate (some rr) l = (
    200,
    record {
      free_limit = if ltb_ℤ (pos 0) rr.free_limit then rr.free_limit else l.free_limit;
      max_burst = if ltb_ℤ (pos 0) rr.max_burst then rr.max_burst else l.max_burst;
      max_limited_rate = if positive rr.rate then rr.rate else l.max_limited_rate;
    },
  )

abbrev first_is : List Bytes → Bytes → Bool
first_is [] text = false
first_is (v ∷ vs) text = bytes_eq v text

-- The test of the admin server in front of its handlers under /config.
unfoldable pub has_admin_key : Bytes → Header → Bool
has_admin_key key h = first_is (values h (codes "Authorization")) (codes "Basic " ++ key)

-- What a writer does: it waits for tokens, and it writes bytes.
pub data Step : Type 0 where
  wait_n : ℕ → Step
  write : Bytes → Step

-- limitedWriter.Write, under the limit of that moment. An error of WaitN is logged, and the bytes are
-- written all the same. The result is the new count and the steps.
unfoldable pub limited_write : ℤ → ℕ → Bytes → ℕ × List Step
limited_write free_limit written b = (
  written + length b,
  if ltb_ℤ free_limit (pos written) then wait_n (length b) ∷ write b ∷ [] else write b ∷ [],
)

-- A sequence of writes of one writer.
unfoldable pub limited_writes : ℤ → ℕ → List Bytes → ℕ × List Step
limited_writes free_limit written [] = (written, [])
limited_writes free_limit written (b ∷ bs) =
    let (written', now) = limited_write free_limit written b in
    let (written'', later) = limited_writes free_limit written' bs in (written'', now ++ later)
