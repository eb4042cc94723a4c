-- ===== src/Access/Examples.antt =====
-- Concrete sources: a limiter that counts tokens, and a client behind two proxies.
use ssheasy.Base.{ℕ, ◌-◌, ◌==◌, true, false, [], ◌∷◌, if◌then◌else◌}
use ssheasy.Base.Int.{pos}
use ssheasy.Base.Text.{codes}
use ssheasy.Base.Maps.{empty, insert}
use ssheasy.Http.{Header}
use ssheasy.Access.Settings.{Limits}
use ssheasy.Access.Sources.{Limiter, Sources}

-- Buckets that are never refilled.
abbrev pub bucket : Limiter ℕ ℕ
bucket = record {
  new_limiter = λ rate burst. 1;
  allow = λ now tokens. (if tokens == 0 then false else true, tokens - 1);
}

abbrev pub strict : Limits ℕ
strict = record { src_conn_rate = 1; src_conn_burst = pos 1; src_limit_enabled = true }

abbrev pub behind_proxy : Header
behind_proxy = insert (codes "X-Forwarded-For") (codes "10.1.1.1, 192.168.7.9" ∷ []) empty

abbrev pub state : Sources ℕ
state = record {
  blacklisted_sources = codes "10.1." ∷ [];
  source_rates = insert (codes "192.168.7.9") 1 empty;
}
