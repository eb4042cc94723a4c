-- ===== src/Access/Settings.antt =====
-- proxy/main.go: the limits on new connections of one source, read from the environment by init.
use ssheasy.Base.{Bool, true, false, ◌||◌, Option, none, some, if◌then◌else◌, []}
use ssheasy.Base.Int.{ℤ, pos, ltb_ℤ}
use ssheasy.Base.Text.{Bytes, codes, bytes_eq, to_lower, trim_space}
use ssheasy.Base.Decimal.{parse_int}

-- srcConnRate, srcConnBurst and srcLimitEnabled, over the type of rate.Limit.
pub record Limits {ℓ} (R : Type ℓ) : Type ℓ where
  pub src_conn_rate : R
  pub src_conn_burst : ℤ
  pub src_limit_enabled : Bool

-- strconv.ParseFloat with a test for a positive result.
module _ {ℓ} {R : Type ℓ} (parse_float : Bytes → Option R) (positive : R → Bool) where
  abbrev set_rate_text : Option R → Limits R → Limits R
  set_rate_text none l = l
  set_rate_text (some f) l =
      if positive f then record l { src_conn_rate = f } else record l { src_limit_enabled = false }

  -- SRC_CONN_RATE
  unfoldable pub read_rate : Bytes → Limits R → Limits R
  read_rate text l =
      let v = to_lower (trim_space text) in
      if bytes_eq v []
      then l
      else if bytes_eq v (codes "off") || bytes_eq v (codes "no")
      then record l { src_limit_enabled = false }
      else set_rate_text (parse_float v) l

  abbrev set_burst_text : Option ℤ → Limits R → Limits R
  set_burst_text none l = l
  set_burst_text (some n) l = if ltb_ℤ (pos 0) n then record l { src_conn_burst = n } else l

  -- SRC_CONN_BURST
  unfoldable pub read_burst : Bytes → Limits R → Limits R
  read_burst v l = if bytes_eq v [] then l else set_burst_text (parse_int v) l

  -- init, from the two variables, with the default rate
  unfoldable pub init_limits : R → Bytes → Bytes → Limits R
  init_limits one rate burst = read_burst burst (
      read_rate rate
        (record { src_conn_rate = one; src_conn_burst = pos 1; src_limit_enabled = true }))
