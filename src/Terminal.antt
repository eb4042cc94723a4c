-- ===== src/Terminal.antt =====
-- web/main.go: initConnection with the host key's fingerprint, the other calls of the page, and the
-- console's output. The SSH library, MD5 and the calls of JavaScript are parameters.
pub mod HostKey
pub mod Closing
pub mod Credentials
pub mod Fingerprint
pub mod Calls
mod Examples
use ssheasy.Base.{
  ℕ, zero, suc, Bool, true, false, ◌&&◌, ◌||◌, not, List, [], ◌∷◌, ◌++◌, Option, none, some, ◌>>=◌,
  if◌then◌else◌, length, ltb,
}
use ssheasy.Base.Int.{ℤ}
use ssheasy.Base.Text.{Bytes, codes, bytes_eq}
use ssheasy.Auth.Session.{hex_encode}

-- A value of JavaScript as String, Int and Bool read it; `none` where they panic.
pub record JsValue : Type 0 where
  pub string : Bytes
  pub int : Option ℤ
  pub bool : Option Bool

pub data Tried (A : Type 0) : Type 0 where
  failed : Bytes → Tried A
  done : A → Tried A

-- What ssh.ParsePrivateKey finds.
pub data Parsed (Signer : Type 0) : Type 0 where
  signer : Signer → Parsed Signer
  passphrase_missing broken : Bytes → Parsed Signer

pub data AuthMethod (Signer : Type 0) : Type 0 where
  public_keys : Signer → AuthMethod Signer
  password : Bytes → AuthMethod Signer

-- What the call does to the page and to the connection to the proxy.
pub data Action : Type 0 where
  dispose dial close_con forward_out_streams keepalive on_data crash : Action
  show_err : Bytes → Action
  show_server_key : Bytes → Bytes → Action
  connected : Bytes → Action

-- The world outside of the call: con, the parsers of keys, the selected WebAuthn key, ssh.NewClientConn
-- with the host key that it passed to the callback, md5.Sum of a marshalled key, the answer that the
-- user gives to a fingerprint, and what becomes of each later step (`some` is its error).
pub record World : Type 1 where
  pub Signer : Type 0
  pub con : Bytes → ℤ → Option Bytes
  pub parse_private_key : Bytes → Parsed Signer
  pub parse_with_passphrase : Bytes → Bytes → Tried Signer
  pub webauthn_signer : Signer
  pub client_conn : List (AuthMethod Signer) → (Bytes → Bool) → Option Bytes × Option Bytes
  pub md5 : Bytes → Bytes
  pub accepts : Bytes → Bytes → Bool
  pub new_session : Option Bytes
  pub stdout_pipe : Option Bytes
  pub stderr_pipe : Option Bytes
  pub stdin_pipe : Option Bytes
  pub request_pty : ℤ → ℤ → Option Bytes
  pub shell : Option Bytes

-- The loop of FingerprintMD5 from the second byte on.
unfoldable pub more_bytes : Bytes → Bytes
more_bytes [] = []
more_bytes (b ∷ bs) = b':' ∷ (hex_encode (b ∷ []) ++ more_bytes bs)

-- FingerprintMD5 of a digest.
unfoldable pub fingerprint_md5 : Bytes → Bytes
fingerprint_md5 [] = []
fingerprint_md5 (b ∷ bs) = hex_encode (b ∷ []) ++ more_bytes bs

-- args[i]
unfoldable pub arg : ℕ → List JsValue → Option JsValue
arg i [] = none
arg zero (v ∷ vs) = some v
arg (suc i) (v ∷ vs) = arg i vs

-- What is read of the arguments before con.
pub record InitArgs : Type 0 where
  pub host : Bytes
  pub port : ℤ
  pub usr : Bytes
  pub pass : Bytes
  pub key : Bytes
  pub bypass_fingerprint : Bool
  pub use_webauth_key : Bool

unfoldable pub read_args : List JsValue → Option InitArgs
read_args args = do
  host ← arg 2 args
  port_value ← arg 3 args
  port ← port_value.int
  usr ← arg 4 args
  pass ← arg 5 args
  key ← arg 6 args
  bypass_value ← arg 8 args
  bypass ← bypass_value.bool
  webauth_value ← arg 9 args
  webauth ← webauth_value.bool
  some (record {
    host = host.string;
    port = port;
    usr = usr.string;
    pass = pass.string;
    key = key.string;
    bypass_fingerprint = bypass;
    use_webauth_key = webauth;
  })

module _ (w : World) where
  -- The authentication methods of the key and the password, or the message of a key that does not parse.
  abbrev with_password : Bytes → List (AuthMethod w.Signer) → List (AuthMethod w.Signer)
  with_password pass methods = if bytes_eq pass [] then methods else methods ++ password pass ∷ []

  abbrev with_passphrase : Tried w.Signer → Tried (List (AuthMethod w.Signer))
  with_passphrase (failed e) = failed e
  with_passphrase (done s) = done (public_keys s ∷ [])

  abbrev with_key : Bytes → Bytes → Parsed w.Signer → Tried (List (AuthMethod w.Signer))
  with_key key pass (signer s) = done (with_password pass (public_keys s ∷ []))
  with_key key pass (broken e) = failed e
  with_key key pass (passphrase_missing e) =
      if bytes_eq pass [] then failed e else with_passphrase (w.parse_with_passphrase key pass)

  unfoldable pub key_methods : Bytes → Bytes → Tried (List (AuthMethod w.Signer))
  key_methods key pass =
      if bytes_eq key []
      then done (with_password pass [])
      else with_key key pass (w.parse_private_key key)

  -- A WebAuthn key takes the place of all other methods.
  abbrev chosen : Bool → List (AuthMethod w.Signer) → List (AuthMethod w.Signer)
  chosen use_webauth_key methods =
      if use_webauth_key then public_keys w.webauthn_signer ∷ [] else methods

  abbrev pub fingerprint : Bytes → Bytes
  fingerprint key = fingerprint_md5 (w.md5 key)

  -- What the host key's callback answers, and what it shows: showFingerprint, or nothing.
  unfoldable pub host_key_callback : Bool → Bytes → Bytes → Bool
  host_key_callback bypass host key = bypass || w.accepts host (fingerprint key)

  abbrev shown : Bool → Bytes → Option Bytes → List Action
  shown bypass host none = []
  shown bypass host (some key) = if bypass then [] else show_server_key host (fingerprint key) ∷ []

  -- A step that shows its error and closes the connection.
  abbrev pub step : Bytes → Option Bytes → List Action → List Action
  step message none rest = rest
  step message (some e) rest = show_err (message ++ e) ∷ close_con ∷ []

  abbrev pub pty : List JsValue → Option Bytes
  pty args = elim (arg 0 args >>= (λ v. v.int)) [
    | none ↦ none
    | some rows ↦ elim (arg 1 args >>= (λ v. v.int)) [
      | none ↦ none
      | some cols ↦ w.request_pty rows cols
    ]
  ]

  abbrev pub has_size : List JsValue → Bool
  has_size args = elim (arg 0 args >>= (λ v. v.int)) [
    | none ↦ false
    | some rows ↦ elim (arg 1 args >>= (λ v. v.int)) [ none ↦ false | some cols ↦ true ]
  ]

  -- From the size of the terminal on.
  abbrev pub open_terminal : List JsValue → InitArgs → List Action
  open_terminal args a =
      if has_size args
      then step (codes "failed to request a pseudo terminal: ") (pty args) (
          step (codes "failed to start ssh shell: ") w.shell (
            keepalive
            ∷ on_data
            ∷ connected (codes "Connected to " ++ (a.usr ++ (codes "@" ++ a.host)))
            ∷ []))
      else crash ∷ []

  -- From NewSession on.
  unfoldable pub open_session : List JsValue → InitArgs → List Action
  open_session args a = step (codes "failed to create new ssh session ") w.new_session (
      step (codes "failed to open stdout: ") w.stdout_pipe (
        step (codes "failed to open stderr: ") w.stderr_pipe (
          forward_out_streams
          ∷ step (codes "failed to open stdin: ") w.stdin_pipe (open_terminal args a))))

  unfoldable pub handshake : List JsValue → InitArgs → List (AuthMethod w.Signer) → List Action
  handshake args a methods =
      let (offered, error) =
        w.client_conn methods (host_key_callback a.bypass_fingerprint a.host) in
      shown a.bypass_fingerprint a.host offered
      ++ step (codes "failed to open ssh conn ") error (open_session args a)

  abbrev with_methods : List JsValue → InitArgs → Tried (List (AuthMethod w.Signer)) → List Action
  with_methods args a (failed e) = show_err (codes "failed to parse private key: " ++ e) ∷ []
  with_methods args a (done methods) = handshake args a (chosen a.use_webauth_key methods)

  -- The message on missing credentials does not end the call.
  abbrev no_credentials : InitArgs → List Action
  no_credentials a =
      if bytes_eq a.pass [] && bytes_eq a.key [] && not a.use_webauth_key
      then show_err (codes "provide a password or a privatre key or use webauthn key") ∷ []
      else []

  unfoldable pub dialled : List JsValue → InitArgs → Option Bytes → List Action
  dialled args a (some e) = show_err (codes "cannot connect to host: " ++ e) ∷ []
  dialled args a none = dial ∷ (no_credentials a ++ with_methods args a (key_methods a.key a.pass))

  abbrev with_args : List JsValue → Option InitArgs → List Action
  with_args args none = crash ∷ []
  with_args args (some a) = dialled args a (w.con a.host a.port)

  -- initConnection; `on_data_set` says whether onData is set by an earlier call.
  unfoldable pub init : Bool → List JsValue → List Action
  init on_data_set args =
      let rest = if ltb (length args) 7 then [] else with_args args (read_args args) in
      if on_data_set then dispose ∷ rest else rest
