-- ===== src/Terminal/Examples.antt =====
-- The theorems about the terminal session at concrete calls and answers.
use ssheasy.Base.{true, false, ◌≡◌, refl, List, [], ◌∷◌, none, some, if◌then◌else◌, arith}
use ssheasy.Base.Int.{ℤ, pos}
use ssheasy.Base.Text.{Bytes, codes, bytes_eq}
use ssheasy.Terminal.{
  JsValue, failed, signer, broken, World, InitArgs, arg, read_args, key_methods, init, open_session,
  handshake, dialled, host_key_callback,
}
use ssheasy.Terminal.HostKey.{ChecksHostKey, IsAccepted, forwards, init-IsAccepted}

-- A world where every step succeeds, the host's key is "k", and the user accepts it.
abbrev world : World
world = record {
  Signer = Bytes;
  con = λ host port. none;
  parse_private_key =
      λ key. if bytes_eq key (codes "bad") then broken (codes "no key") else signer key;
  parse_with_passphrase = λ key pass. failed (codes "no key");
  webauthn_signer = codes "webauthn";
  client_conn = λ methods callback.
      (some (codes "k"), if callback (codes "k") then none else some (codes "refused"));
  md5 = λ s. s;
  accepts = λ host print. true;
  new_session = none;
  stdout_pipe = none;
  stderr_pipe = none;
  stdin_pipe = none;
  request_pty = λ rows cols. none;
  shell = none;
}

world_checks : ChecksHostKey world
world_checks methods callback h = (codes "k", refl, ground arith)

abbrev text : Bytes → JsValue
text s = record { string = s; int = none; bool = none }

abbrev number : ℤ → JsValue
number n = record { string = []; int = some n; bool = none }

abbrev no : JsValue
no = record { string = []; int = none; bool = some false }

abbrev call : Bytes → List JsValue
call key =
    number (pos 24)
    ∷ number (pos 80)
    ∷ text (codes "host")
    ∷ number (pos 22)
    ∷ text (codes "me")
    ∷ text (codes "pw")
    ∷ text key
    ∷ no
    ∷ no
    ∷ no
    ∷ []

abbrev given : Bytes → InitArgs
given key = record {
  host = codes "host";
  port = pos 22;
  usr = codes "me";
  pass = codes "pw";
  key = key;
  bypass_fingerprint = false;
  use_webauth_key = false;
}

init-IsAccepted_example :
    (a : InitArgs) × (read_args (call []) ≡ some a) × IsAccepted world world_checks a
unfolding init read_args arg dialled key_methods handshake host_key_callback open_session forwards
    bytes_eq
init-IsAccepted_example = init-IsAccepted world world_checks false (call []) refl

abbrev digest : Bytes
digest = 1 ∷ 254 ∷ []
