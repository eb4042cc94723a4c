-- ===== src/Auth/Examples.antt =====
-- The theorems about proxy/auth.go at concrete inputs: a stand-in for HMAC, one server, a few requests.
use ssheasy.Base.{
  ℕ, ◌+◌, ◌*◌, ◌^◌, ◌≤◌, true, false, ◌≡◌, refl, ◌↔◌, ◌⊎◌, List, [], ◌∷◌, ◌++◌, none, some, arith,
  take, if◌then◌else◌,
}
use ssheasy.Base.Int.{pos, ◌+ℤ◌, ◌-ℤ◌}
use ssheasy.Base.Text.{Bytes, codes, bytes_eq, trim_space, to_upper, has_prefix, has_suffix}
use ssheasy.Base.Maps.{empty}
use ssheasy.Base.Decimal.{format_nat}
use ssheasy.Http.{Request, method_get, method_post}
use ssheasy.Auth.Lockout.{login_locked, sweep}
use ssheasy.Auth.ClientIp.{client_ip}
use ssheasy.Auth.Session.{new_session, valid_session, unix}
use ssheasy.Auth.Session.Laws.{Signed, valid_session_iff}
use ssheasy.Auth.Totp.{verify_totp, totp_at, pad_six, truncate, put_u64}
use ssheasy.Auth.Totp.Laws.{InWindow, verify_totp_iff}
use ssheasy.Auth.Config.{AuthConfig, init_auth, default_ttl, remove_spaces}
use ssheasy.Auth.Config.Laws.{IsUp, IsDown, init_auth_sound}
use ssheasy.Auth.Login.{
  redirect, Cookie, Instants, handle_login, handle_post, verify_post, code_ok, grant,
}
use ssheasy.Auth.Login.Laws.{rejections, rejections_bound, handle_login_grants, IsEntitled}
use ssheasy.Auth.Login.Flight.{
  Logins, Reaches, begin, then_step, passes, verifies, verified, Reaches-rejected,
}
use ssheasy.Auth.Login.Halves.{count}
use ssheasy.Auth.Gate.{auth_middleware, is_public_asset}
use ssheasy.Auth.Gate.Laws.{auth_middleware_protects}

-- Twenty bytes that depend on the key and the message.
abbrev pub toy_hmac : Bytes → Bytes → Bytes
toy_hmac key message = take 12 (key ++ codes "............") ++ message

abbrev pub server : AuthConfig
server = record {
  gate_enabled = true;
  totp_seed = codes "12345678901234567890";
  sign_key = codes "0123456789abcdef";
  session_ttl = pos (3600 * 10 ^ 9);
}

abbrev pub noon : ℕ
noon = 63900000000 * 10 ^ 9

abbrev pub from_peer : Bytes → Bytes → Bytes → Request
from_peer method path code = record {
  method = method;
  path = path;
  raw_query = [];
  header = empty;
  remote_addr = codes "10.0.0.7:52100";
  cookie = λ name. none;
  form_value = λ name. code;
}

abbrev pub at : ℕ → Instants
at now = record {
  checked = now;
  verified = now + 1;
  recorded = now + 2;
  locked = now + 3;
  issued = now + 4;
}

abbrev guess : Request
guess = from_peer method_post (codes "/auth/login") (codes "999999")

abbrev guesses : List (Request × Instants)
guesses = (guess, at noon) ∷ (guess, at (noon + 60)) ∷ []

abbrev peer : Bytes
peer = codes "10.0.0.7"

abbrev right_code : Bytes
right_code = codes "373492"

abbrev pub entry : Request
entry = from_peer method_post (codes "/auth/login") right_code

-- The code of the step of `noon`.
right : totp_at toy_hmac server.totp_seed (pos 58813440) ≡ right_code
unfolding totp_at pad_six truncate put_u64 format_nat
right = refl

peer_is : client_ip guess ≡ peer
unfolding client_ip bytes_eq
peer_is = refl

wrong_guess : code_ok toy_hmac toy_hmac server guess (at noon) ≡ false
unfolding code_ok verify_totp totp_at pad_six truncate put_u64 format_nat trim_space unix bytes_eq
    ◌-ℤ◌ ◌+ℤ◌
wrong_guess = refl

wrong_again : code_ok toy_hmac toy_hmac server guess (at (noon + 60)) ≡ false
unfolding code_ok verify_totp totp_at pad_six truncate put_u64 format_nat trim_space unix bytes_eq
    ◌-ℤ◌ ◌+ℤ◌
wrong_again = refl

verify_totp_iff_example :
    (verify_totp toy_hmac server.totp_seed right_code (pos noon) ≡ true)
    ↔ InWindow toy_hmac server.totp_seed (pos noon) right_code
verify_totp_iff_example = verify_totp_iff toy_hmac server.totp_seed right_code (pos noon)

token : Bytes
token = new_session toy_hmac server.sign_key (pos (noon + 3600 * 10 ^ 9))

valid_session_iff_example :
    (valid_session toy_hmac server.sign_key (pos noon) token ≡ true)
    ↔ Signed toy_hmac server.sign_key (pos noon) token
valid_session_iff_example = valid_session_iff toy_hmac server.sign_key (pos noon) token

visit : Request
visit = from_peer method_get (codes "/pm") []

auth_middleware_protects_example :
    auth_middleware toy_hmac server
      (λ r. none)
      some
      (from_peer method_get (codes "/pm") [])
      (pos noon)
    ≡ auth_middleware toy_hmac server
        (λ r. some (redirect 200 [] none))
        some
        (from_peer method_get (codes "/pm") [])
        (pos noon)
unfolding has_prefix has_suffix is_public_asset bytes_eq
auth_middleware_protects_example =
    auth_middleware_protects toy_hmac server (λ r. none) (λ r. some (redirect 200 [] none)) some
      (from_peer method_get (codes "/pm") []) (pos noon) refl refl refl (λ s. cc s.1)

rejections_bound_example : rejections toy_hmac toy_hmac server peer empty guesses ≤ 10
unfolding client_ip bytes_eq
rejections_bound_example =
    rejections_bound toy_hmac toy_hmac server peer noon empty guesses
      ((omega arith, λ e. wrong_guess), ((omega arith, λ e. wrong_again), tt)) tt

-- Two guesses in flight together; the first one is recorded.
abbrev first_guess : Request × Instants
first_guess = (guess, at noon)

abbrev second_guess : Request × Instants
second_guess = (guess, at (noon + 60))

abbrev idle : Logins
idle = record { table = empty; in_flight = []; rejected = 0 }

abbrev one_flies : Logins
one_flies = record {
  table = (login_locked (client_ip guess) noon empty).1;
  in_flight = first_guess ∷ [];
  rejected = 0;
}

abbrev two_fly : Logins
two_fly = record {
  table = (login_locked (client_ip guess) (noon + 60) one_flies.table).1;
  in_flight = second_guess ∷ first_guess ∷ [];
  rejected = 0;
}

abbrev one_landed : Logins
one_landed = verified toy_hmac toy_hmac server peer noon two_fly (second_guess ∷ []) first_guess

landed : Reaches toy_hmac toy_hmac server peer noon 2 empty one_landed
unfolding login_locked sweep count client_ip bytes_eq
landed =
    then_step two_fly one_landed
      (then_step one_flies two_fly
        (then_step idle one_flies begin
          (passes idle first_guess (omega arith, λ e. wrong_guess) refl (omega arith)))
        (passes one_flies second_guess (omega arith, λ e. wrong_again) refl (omega arith)))
      (verifies two_fly (second_guess ∷ []) [] first_guess refl)

Reaches-rejected_example : one_landed.rejected ≤ 10 + 1
Reaches-rejected_example =
    Reaches-rejected toy_hmac toy_hmac server peer noon 1 empty one_landed tt landed

abbrev pub granted : Cookie
granted = record {
  value = new_session toy_hmac server.sign_key (pos (noon + 4) +ℤ server.session_ttl);
  max_age = pos 3600;
  http_only = true;
  secure = false;
  same_site_lax = true;
}

handle_login_grants_example :
    IsEntitled toy_hmac toy_hmac server entry (at noon) empty
    × (granted.value ≡ new_session toy_hmac server.sign_key (pos (noon + 4) +ℤ server.session_ttl))
unfolding handle_login handle_post verify_post login_locked sweep grant code_ok verify_totp totp_at
    pad_six truncate put_u64 format_nat trim_space unix bytes_eq ◌-ℤ◌ ◌+ℤ◌
handle_login_grants_example =
    handle_login_grants toy_hmac toy_hmac server entry (at noon) empty 303 (codes "/") granted refl

abbrev environment : Bytes → Bytes
environment name =
    if bytes_eq name (codes "TOTP_SEED")
    then codes "gezd gnbv"
    else if bytes_eq name (codes "SESSION_SECRET")
    then codes "0123456789abcdef"
    else []

init_auth_sound_example :
    IsUp some
      (λ v. none)
      environment
      (record server { totp_seed = codes "GEZDGNBV"; session_ttl = default_ttl })
    ⊎ IsDown some
        (λ v. none)
        environment
        (record server { totp_seed = codes "GEZDGNBV"; session_ttl = default_ttl })
unfolding init_auth bytes_eq to_upper remove_spaces
init_auth_sound_example =
    init_auth_sound some (λ v. none) environment
      (record server { totp_seed = codes "GEZDGNBV"; session_ttl = default_ttl }) refl
