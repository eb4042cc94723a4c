-- ===== src/Auth/Config.antt =====
-- proxy/auth.go: the configuration of the gate and initAuth, which reads it from the environment.
-- Base32 decoding, time.ParseDuration and log output are the library's: the first two are parameters.
pub mod Laws
use ssheasy.Base.{
  ℕ, ◌*◌, ◌^◌, Bool, true, false, ◌||◌, List, [], ◌∷◌, Option, none, some, if◌then◌else◌, ◌==◌, ltb,
  length,
}
use ssheasy.Base.Int.{ℤ, pos}
use ssheasy.Base.Text.{Bytes, codes, bytes_eq, to_upper, to_lower, trim_space}

-- The package variables gateEnabled, totpSeed, signKey and sessionTTL (in nanoseconds).
pub record AuthConfig : Type 0 where
  pub gate_enabled : Bool
  pub totp_seed : Bytes
  pub sign_key : Bytes
  pub session_ttl : ℤ

-- log.Fatal ends the process, with the reason here.
pub data Fatal : Type 0 where
  refusing_to_start bad_base32 short_secret bad_ttl : Fatal

pub data InitResult : Type 0 where
  fatal : Fatal → InitResult
  running : AuthConfig → InitResult

-- Before initAuth, and still so after it has found the gate disabled.
abbrev pub gate_off : AuthConfig
gate_off = record { gate_enabled = false; totp_seed = []; sign_key = []; session_ttl = pos 0 }

-- strings.ReplaceAll(s, " ", "")
unfoldable pub remove_spaces : Bytes → Bytes
remove_spaces [] = []
remove_spaces (c ∷ s) = let rest = remove_spaces s in if c == b' ' then rest else c ∷ rest

-- The four values of AUTH_DISABLED that switch the gate off.
unfoldable pub is_opt_out : Bytes → Bool
is_opt_out v =
    let w = to_lower (trim_space v) in
    bytes_eq w (codes "1")
    || bytes_eq w (codes "true")
    || bytes_eq w (codes "yes")
    || bytes_eq w (codes "on")

-- 24 * time.Hour
abbrev pub default_ttl : ℤ
default_ttl = pos (24 * 3600 * 10 ^ 9)

-- `none` is the error of time.ParseDuration.
abbrev pub ttl_of : (Bytes → Option ℤ) → Bytes → Option ℤ
ttl_of parse_duration v = if bytes_eq v [] then some default_ttl else parse_duration v

abbrev enabled : Bytes → Bytes → Option ℤ → InitResult
enabled seed secret none = fatal bad_ttl
enabled seed secret (some ttl) =
    running (record { gate_enabled = true; totp_seed = seed; sign_key = secret; session_ttl = ttl })

abbrev decoded : Bytes → Option ℤ → Option Bytes → InitResult
decoded secret ttl none = fatal bad_base32
decoded secret ttl (some seed) =
    if ltb (length secret) 16 then fatal short_secret else enabled seed secret ttl

module _ (base32_decode : Bytes → Option Bytes) (parse_duration : Bytes → Option ℤ) where
  -- initAuth; `env` is os.Getenv.
  unfoldable pub init_auth : (Bytes → Bytes) → InitResult
  init_auth env =
      let raw_seed = to_upper (remove_spaces (env (codes "TOTP_SEED"))) in
      let secret = env (codes "SESSION_SECRET") in
      if bytes_eq raw_seed [] || bytes_eq secret []
      then (if is_opt_out (env (codes "AUTH_DISABLED"))
          then running gate_off
          else fatal refusing_to_start)
      else decoded secret (ttl_of parse_duration (env (codes "SESSION_TTL")))
          (base32_decode raw_seed)
