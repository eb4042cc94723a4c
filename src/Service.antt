-- ===== src/Service.antt =====
-- proxy/main.go: main with its routes and its end, writeAuditLog, newLimters, the loggers; and the routes
-- of the admin server in proxy/admin.go. The router of gorilla/mux is taken to match a template as it
-- stands; its cleaning of paths, the flags' parsing and the files are parameters or left out.
pub mod Routes
pub mod Login
pub mod Admission
pub mod Dialling
pub mod Audit
pub mod Shutdown
mod Examples
use ssheasy.Base.{
  ℕ, zero, suc, ◌+◌, Bool, true, false, ◌||◌, ◌&&◌, not, List, [], ◌∷◌, ◌++◌, Option, none, some,
  if◌then◌else◌, length, leb, take,
}
use ssheasy.Base.Int.{ℤ, pos, ltb_ℤ}
use ssheasy.Base.Text.{Bytes, codes, bytes_eq, has_prefix}
use ssheasy.Base.Decimal.{format_int}
use ssheasy.Http.{Header, Request, method_get, method_post}
use ssheasy.Auth.Config.{AuthConfig}
use ssheasy.Auth.Login.{Reply}
use ssheasy.Auth.Gate.{auth_middleware}
use ssheasy.Traffic.{TrafficLimits, has_admin_key}

-- The flags of main.
pub record Flags : Type 0 where
  pub public_addr : Bytes
  pub admin_addr : Bytes
  pub admin_key : Bytes
  pub audit_log_file : Bytes

pub data Started : Type 0 where
  usage : Started
  fatal : Bytes → Started
  serves : Started

-- The beginning of main; `open_file` is the error of os.OpenFile for the audit log.
unfoldable pub start : (Bytes → Option Bytes) → Flags → Started
start open_file f =
    if bytes_eq f.public_addr [] || bytes_eq f.admin_addr []
    then usage
    else elim (open_file f.audit_log_file) [ none ↦ serves | some e ↦ fatal e ]

pub data Handler : Type 0 where
  login logout websocket mux_websocket site : Handler

-- The routes of the public server.
unfoldable pub public_route : Bytes → Handler
public_route path =
    if bytes_eq path (codes "/auth/login")
    then login
    else if bytes_eq path (codes "/auth/logout")
    then logout
    else if bytes_eq path (codes "/p") || bytes_eq path (codes "/ws")
    then websocket
    else if bytes_eq path (codes "/pm")
    then mux_websocket
    else site

pub data Served : Type 0 where
  runs : Handler → Served
  replies : Reply → Served

-- The handler of the public server: the routes behind the gate.
unfoldable pub public_handler : (Bytes → Bytes → Bytes) → AuthConfig → Request → ℤ → Served
public_handler hmac_sha256 c r now =
    auth_middleware hmac_sha256 c (λ r. runs (public_route r.path)) replies r now

pub data AdminHandler : Type 0 where
  metrics get_rate set_rate get_black_list set_black_list : AdminHandler
  get_src_black_list set_src_black_list : AdminHandler

-- The routes of startAdmin, in their order; `none` is the router's own answer. The template of
-- setSrcBlackList begins with a tab, and the router gives a route whose template does not begin with a
-- slash an error, with which it matches no request.
unfoldable pub admin_route : Bytes → Bytes → Option AdminHandler
admin_route method path =
    if bytes_eq path (codes "/metrics")
    then some metrics
    else if bytes_eq path (codes "/config/rate") && bytes_eq method method_get
    then some get_rate
    else if bytes_eq path (codes "/config/rate") && bytes_eq method method_post
    then some set_rate
    else if bytes_eq path (codes "/config/blacklist") && bytes_eq method method_get
    then some get_black_list
    else if bytes_eq path (codes "/config/srcblacklist") && bytes_eq method method_get
    then some get_src_black_list
    else none

pub data AdminServed : Type 0 where
  unrouted unauthorized : AdminServed
  handles : AdminHandler → AdminServed

-- The test of the key stands in front of the handlers under /config.
abbrev pub guarded : Bytes → Header → AdminHandler → AdminServed
guarded key h metrics = handles metrics
guarded key h get_rate = if has_admin_key key h then handles get_rate else unauthorized
guarded key h set_rate = if has_admin_key key h then handles set_rate else unauthorized
guarded key h get_black_list = if has_admin_key key h then handles get_black_list else unauthorized
guarded key h set_black_list = if has_admin_key key h then handles set_black_list else unauthorized
guarded key h get_src_black_list =
    if has_admin_key key h then handles get_src_black_list else unauthorized
guarded key h set_src_black_list =
    if has_admin_key key h then handles set_src_black_list else unauthorized

abbrev pub routed : Bytes → Header → Option AdminHandler → AdminServed
routed key h none = unrouted
routed key h (some handler) = guarded key h handler

-- The handler of the admin server.
unfoldable pub admin_handler : Bytes → Request → AdminServed
admin_handler key r = routed key r.header (admin_route r.method r.path)

-- writeAuditLog, as the line that it appends; `now` is the formatted time.
unfoldable pub audit_line : Bytes → Bytes → Bytes → ℤ → Bytes → Bytes
audit_line now src_ip dst_ip dst_port msg =
    now
    ++ b','
      ∷ (src_ip ++ b',' ∷ (dst_ip ++ b',' ∷ (format_int dst_port ++ b',' ∷ (msg ++ b'\n' ∷ []))))

-- writeAuditLog, on the file so far; without a file nothing is written.
unfoldable pub write_audit_log : Option Bytes → Bytes → Bytes → Bytes → ℤ → Bytes → Option Bytes
write_audit_log none now src_ip dst_ip dst_port msg = none
write_audit_log (some log) now src_ip dst_ip dst_port msg =
    some (log ++ audit_line now src_ip dst_ip dst_port msg)

-- One round after another of the loop at the end of main: what each LoadInt64 reads. The result is the
-- number of sleeps, or `none` while the loop goes on.
unfoldable pub drain : List ℤ → Option ℕ
drain [] = none
drain (a ∷ later) =
    let rest = drain later in
    if not (ltb_ℤ (pos 0) a) then some 0 else elim rest [ none ↦ none | some n ↦ some (suc n) ]

-- What both writers of newLimters have: nothing was written yet, and the one limiter is shared, made of
-- the limits of that moment.
pub record Limiters {ℓ} (L : Type ℓ) : Type ℓ where
  pub written_up : ℕ
  pub written_down : ℕ
  pub shared : L

unfoldable pub new_limters {ℓ} : {R L : Type ℓ} → (R → ℤ → L) → TrafficLimits R → Limiters L
new_limters new_limiter l = record {
  written_up = 0;
  written_down = 0;
  shared = new_limiter l.max_limited_rate l.max_burst;
}

-- The id of bootHandshake and newLogger; `uuid` is what uuid.NewRandom gives.
unfoldable pub request_id : Option Bytes → Bytes
request_id none = codes "not-uuid"
request_id (some id) = id

-- logFromID: the prefix of the log lines; `none` is a panic of the slice.
unfoldable pub log_from_id : Bytes → Option Bytes
log_from_id id = if leb 8 (length id) then some (take 8 id ++ codes " ") else none

-- What stops ping: an error of its frame writer, or the end of the connection.
pub data Tick : Type 0 where
  ticks : Bool → Tick
  done : Tick

-- ping, as the number of frames that it sent; `made` says whether the frame writer could be made.
ping_loop : List Tick → ℕ
ping_loop [] = 0
ping_loop (done ∷ ts) = 0
ping_loop (ticks false ∷ ts) = 0
ping_loop (ticks true ∷ ts) = suc (ping_loop ts)

unfoldable pub ping : Bool → List Tick → ℕ
unfolding ping_loop
ping made ts = if made then ping_loop ts else 0
