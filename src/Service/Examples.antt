-- ===== src/Service/Examples.antt =====
-- The theorems about the service at concrete requests and runs.
use ssheasy.Base.{
  take, ◌&&◌, ◌||◌, ℕ, ◌≤◌, true, false, ◌≡◌, ◌⊎◌, refl, List, [], ◌∷◌, ◌++◌, none, some,
  if◌then◌else◌, length, inl, ◌≢◌, ◌+◌, ◌^◌, arith,
}
use ssheasy.Base.Int.{ℤ, pos, ◌-ℤ◌, ◌+ℤ◌, ltb_ℤ}
use ssheasy.Base.Text.{split, trim_space, Bytes, codes, bytes_eq}
use ssheasy.Base.Decimal.{format_nat}
use ssheasy.Auth.Session.{unix}
use ssheasy.Base.Maps.{empty}
use ssheasy.Http.{Request, method_get, method_post}
use ssheasy.Access.Examples.{bucket, strict, behind_proxy, state}
use ssheasy.Access.Sources.{Verdict, Sources, addresses, get_ip_adress}
use ssheasy.Access.Sources.Laws.{IsBanned}
use ssheasy.Service.Admission.{IsTurnedAway, set_src_black_list-get_ip_adress}
use ssheasy.Access.Targets.{initial, is_allowed_targer, is_target}
use ssheasy.Auth.Config.{AuthConfig}
use ssheasy.Relay.{World, handle_wss}
use ssheasy.Traffic.{has_admin_key}
use ssheasy.Service.{public_handler, public_route, admin_handler, admin_route, drain, set_rate}
use ssheasy.Service.Routes.{IsGuarded, admin_handler_guards}
use ssheasy.Service.{Handler, runs}
use ssheasy.Mux.Examples.{toy, net, told, shared}
use ssheasy.Mux.Header.{write_mux_header, read_mux_header, read_body}
use ssheasy.Mux.Server.{handle_mux_stream}
use ssheasy.Mux.Client.{con}
use ssheasy.Relay.{Dial, con_legacy, serve, buffer}
use ssheasy.Service.Dialling.{is_connection, IsAnswered, con-direct}
use ssheasy.Service.Login.{expiry, handle_login-public_handler}
use ssheasy.Auth.Examples.{toy_hmac, server, noon, from_peer, at, entry, granted}
use ssheasy.Auth.Lockout.{login_locked, sweep}
use ssheasy.Auth.Login.{handle_login, handle_post, verify_post, grant, code_ok}
use ssheasy.Auth.Totp.{verify_totp, totp_at, pad_six, truncate, put_u64}
use ssheasy.Service.Shutdown.{waiting, Thread, Reaches, begin, arrives, work}
use ssheasy.Service.Shutdown.Ends.{stops, CanStep, Runs-ends}

abbrev asked : Bytes → Bytes → Request
asked method path = record {
  method = method;
  path = path;
  raw_query = [];
  header =
      λ key. if bytes_eq key (codes "Authorization") then some (codes "Basic k" ∷ []) else none;
  remote_addr = codes "10.0.0.1:1024";
  cookie = λ name. none;
  form_value = λ name. [];
}

admin_handler_guards_example :
    IsGuarded (codes "k") (asked method_post (codes "/config/rate")).header set_rate
unfolding admin_handler admin_route has_admin_key bytes_eq
admin_handler_guards_example =
    admin_handler_guards (codes "k") (asked method_post (codes "/config/rate")) set_rate refl

abbrev returning : Request
returning = record (from_peer method_get (codes "/p") []) { cookie = λ name. some granted.value }

handle_login-public_handler_example :
    (ltb_ℤ (unix (pos (noon + 10 ^ 9))) (unix (expiry toy_hmac toy_hmac server (at noon))) ≡ true
      → public_handler toy_hmac server returning (pos (noon + 10 ^ 9))
        ≡ runs (public_route (codes "/p")))
    × (ltb_ℤ (unix (pos (noon + 10 ^ 9))) (unix (expiry toy_hmac toy_hmac server (at noon))) ≡ false
        → (h : Handler) → public_handler toy_hmac server returning (pos (noon + 10 ^ 9)) ≢ runs h)
unfolding handle_login handle_post verify_post login_locked sweep grant code_ok verify_totp totp_at
    pad_six truncate put_u64 format_nat trim_space unix bytes_eq ◌-ℤ◌ ◌+ℤ◌ public_route
handle_login-public_handler_example =
    handle_login-public_handler toy_hmac toy_hmac server entry (at noon) empty 303 (codes "/")
      granted refl (omega arith) refl returning (pos (noon + 10 ^ 9)) refl (inl refl)

abbrev hmac : Bytes → Bytes → Bytes
hmac key message = codes "x"

abbrev gate : AuthConfig
gate = record { gate_enabled = true; totp_seed = []; sign_key = codes "k"; session_ttl = pos 60 }

-- The hex digits behind the dot are those of the signature.
abbrev with_session : Request
with_session = record {
  method = method_get;
  path = codes "/pm";
  raw_query = [];
  header = empty;
  remote_addr = codes "10.0.0.1:1024";
  cookie = λ name. some (codes "9.78");
  form_value = λ name. [];
}

abbrev world : World
world = record {
  deadline_set = true;
  received = none;
  decode = λ s. none;
  deadline_reset = true;
  connects = λ address. true;
}

abbrev admitted : Verdict ℕ
admitted = record {
  blocked = false;
  ips = codes "10.0.0.7" ∷ [];
  sources = record { blacklisted_sources = []; source_rates = λ k. none };
}

-- One call that has not begun.
abbrev threads : List Thread
threads = record { phase = waiting; todo = (handle_wss world admitted initial).0 } ∷ []

one_arrived : Reaches threads (pos 0)
one_arrived = arrives world admitted initial [] (pos 0) begin

Runs-ends_example :
    (0 ≤ work threads)
    × (CanStep threads (pos 0)
        ⊎ ((loads : List ℤ)
            → (n : ℕ) × (n ≤ length loads) × (drain (loads ++ pos 0 ∷ []) ≡ some n)))
Runs-ends_example = Runs-ends 0 threads threads (pos 0) (pos 0) one_arrived (stops threads (pos 0))

abbrev answering : World
answering = record world { received = some (codes "git"); decode = λ s. some (take 3 s, pos 22) }

abbrev dialling : Dial
dialling = record { opens = true; encoded = some (codes "git"); response = some (codes "ok") }

git-IsAnswered : IsAnswered toy net (codes "10.0.0.7") (codes "git") (pos 22) initial (told 1)
unfolding write_mux_header handle_mux_stream read_mux_header read_body is_allowed_targer is_target
    bytes_eq
git-IsAnswered = record {
  smooth = record { ws_opens = refl; client_made = refl; stream_opens = refl; header_sent = refl };
  wire = 0 ∷ 3 ∷ codes "git";
  sent = refl;
  told = refl;
}

con-direct_example :
    is_connection (con (told 1) (told 1) (con_legacy dialling) shared).0
    ≡ ((is_allowed_targer (codes "git") initial).0 && (true || true))
unfolding handle_wss serve buffer is_allowed_targer is_target bytes_eq
con-direct_example =
    con-direct toy net (codes "10.0.0.7") (codes "git") (codes "git") (pos 22) initial shared
      (told 1) (told 1) answering admitted dialling (codes "git") refl
      (record { written = refl; read = refl; some_bytes = omega arith; not_too_many = omega arith })
      git-IsAnswered git-IsAnswered
      (record { free = refl; set = refl; read = refl; decoded = refl; reset = refl }) refl refl refl

abbrev banning : Sources ℕ
banning = record state { blacklisted_sources = codes "192.168." ∷ [] }

set_src_black_list-get_ip_adress_example :
    let v = get_ip_adress bucket strict behind_proxy (codes "10.0.0.1:80") 5 banning in
    let refused =
      IsBanned (codes "192.168." ∷ []) (addresses behind_proxy (codes "10.0.0.1:80"))
      ⊎ ((true ≡ true) × (true ≡ false)) in
    (refused → IsTurnedAway v) × (v.blocked ≡ true → refused)
unfolding ssheasy.Access.Sources.set_src_black_list addresses bytes_eq split trim_space
set_src_black_list-get_ip_adress_example =
    set_src_black_list-get_ip_adress bucket strict (codes "192.168." ∷ []) state behind_proxy
      (codes "10.0.0.1:80") 5
