-- ===== src/Auth/Config/Laws.antt =====
-- The gate fails closed.
use ssheasy.Base.{
  ◌≡◌, ◌≤◌, ◌⊎◌, true, false, [], Option, some, arith, length, Option-cases, Bool-cases, ◌||◌, inl,
  inr,
}
use ssheasy.Base.Int.{ℤ}
use ssheasy.Base.Text.{Bytes, codes, bytes_eq, bytes_eq_iff, to_upper}
use ssheasy.Auth.Config.{
  AuthConfig, running, gate_off, remove_spaces, is_opt_out, ttl_of, init_auth,
}

module _ (base32_decode : Bytes → Option Bytes) (parse_duration : Bytes → Option ℤ)
    (env : Bytes → Bytes) where
  abbrev raw_seed : Bytes
  raw_seed = to_upper (remove_spaces (env (codes "TOTP_SEED")))

  abbrev secret : Bytes
  secret = env (codes "SESSION_SECRET")

  -- The gate is up, with what the environment gave.
  pub record IsUp (c : AuthConfig) : Type 0 where
    pub on : c.gate_enabled ≡ true
    pub seed : base32_decode raw_seed ≡ some c.totp_seed
    pub key : c.sign_key ≡ secret
    pub long : 16 ≤ length c.sign_key
    pub ttl : ttl_of parse_duration (env (codes "SESSION_TTL")) ≡ some c.session_ttl

  -- The gate is down, since the operator opted out.
  pub record IsDown (c : AuthConfig) : Type 0 where
    pub off : c ≡ gate_off
    pub unset : (raw_seed ≡ []) ⊎ (secret ≡ [])
    pub opted : is_opt_out (env (codes "AUTH_DISABLED")) ≡ true

  init_auth-unset :
      (c : AuthConfig)
      → init_auth base32_decode parse_duration env ≡ running c
      → bytes_eq raw_seed [] || bytes_eq secret [] ≡ true
      → IsDown c
  unfolding init_auth
  init_auth-unset c h e = record {
    off = ground arith;
    unset = ground (arith, bytes_eq_iff raw_seed [], bytes_eq_iff secret []);
    opted = ground arith;
  }

  init_auth-set :
      (c : AuthConfig) (seed : Bytes) (ttl : ℤ)
      → init_auth base32_decode parse_duration env ≡ running c
      → bytes_eq raw_seed [] || bytes_eq secret [] ≡ false
      → base32_decode raw_seed ≡ some seed
      → ttl_of parse_duration (env (codes "SESSION_TTL")) ≡ some ttl
      → IsUp c
  unfolding init_auth
  init_auth-set c seed ttl h e d t = record {
    on = ground arith;
    seed = ground arith;
    key = ground arith;
    long = ground arith;
    ttl = ground arith;
  }

  -- The server runs only with the gate up, under a decoded seed and a secret of at least 16 bytes,
  -- or with the gate down because the seed or the secret is unset and AUTH_DISABLED says so.
  pub init_auth_sound :
      (c : AuthConfig) → init_auth base32_decode parse_duration env ≡ running c → IsUp c ⊎ IsDown c
  unfolding init_auth
  init_auth_sound c h = elim (Bool-cases (bytes_eq raw_seed [] || bytes_eq secret [])) [
    | inl e ↦ inr (init_auth-unset c h e)
    | inr e ↦ elim (Option-cases (base32_decode raw_seed)) [
      | inl d ↦ absurd (ground arith)
      | inr (seed, d) ↦ elim (Option-cases (ttl_of parse_duration (env (codes "SESSION_TTL")))) [
        | inl t ↦ absurd (ground arith)
        | inr (ttl, t) ↦ inl (init_auth-set c seed ttl h e d t)
      ]
    ]
  ]
