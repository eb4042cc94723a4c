-- ===== src/Terminal/HostKey.antt =====
-- Nobody is connected to a host whose key the user did not accept.
use ssheasy.Base.{
  Bool, true, false, ◌≡◌, refl, ◌⊎◌, inl, inr, List, [], ◌∷◌, ◌++◌, Option, none, some,
  if◌then◌else◌, ◌||◌, Bool-cases, Option-cases, arith, length, ltb, false≢true,
}
use ssheasy.Base.Text.{Bytes, codes}
use ssheasy.Terminal.{
  JsValue, Tried, failed, done, Action, dispose, dial, close_con, forward_out_streams, keepalive,
  on_data, crash, show_err, show_server_key, connected, World, InitArgs, AuthMethod, read_args,
  fingerprint, host_key_callback, shown, step, open_session, handshake, with_methods, key_methods,
  no_credentials, dialled, with_args, init, chosen,
}

-- What golang.org/x/crypto/ssh promises: a connection is made only if the callback was called with the
-- host's key, and returned no error.
abbrev pub ChecksHostKey : World → Type 0
ChecksHostKey w =
    (methods : List (AuthMethod w.Signer)) (callback : Bytes → Bool)
    → (w.client_conn methods callback).1 ≡ none
    → (key : Bytes) × ((w.client_conn methods callback).0 ≡ some key) × (callback key ≡ true)

abbrev is_forward : Action → Bool
is_forward dispose = false
is_forward dial = false
is_forward close_con = false
is_forward forward_out_streams = true
is_forward keepalive = false
is_forward on_data = false
is_forward crash = false
is_forward (show_err e) = false
is_forward (show_server_key h f) = false
is_forward (connected s) = false

-- Whether the remote side's output reaches the console.
unfoldable pub forwards : List Action → Bool
forwards [] = false
forwards (x ∷ xs) = is_forward x || forwards xs

forwards-append : (xs ys : List Action) → forwards (xs ++ ys) ≡ (forwards xs || forwards ys)
unfolding forwards
forwards-append [] ys = refl
forwards-append (x ∷ xs) ys = ground (arith, forwards-append xs ys)

Tried-cases :
    {A : Type 0} → (t : Tried A) → ((e : Bytes) × (t ≡ failed e)) ⊎ ((x : A) × (t ≡ done x))
Tried-cases (failed e) = inl (e, refl)
Tried-cases (done x) = inr (x, refl)

module _ (w : World) (checks : ChecksHostKey w) where
  -- The user accepted the fingerprint of the key that the host showed, or asked for no check.
  abbrev pub IsAccepted : InitArgs → Type 0
  IsAccepted a =
      (a.bypass_fingerprint ≡ true)
      ⊎ (methods : List (AuthMethod w.Signer)) × (key : Bytes) × ((w.client_conn methods
            (host_key_callback w a.bypass_fingerprint a.host)).0
          ≡ some key)
        × (w.accepts a.host (fingerprint w key) ≡ true)

  callback-accepts :
      (bypass : Bool) (host key : Bytes)
      → host_key_callback w bypass host key ≡ true
      → (bypass ≡ true) ⊎ (w.accepts host (fingerprint w key) ≡ true)
  unfolding host_key_callback
  callback-accepts true host key h = inl refl
  callback-accepts false host key h = inr h

  shown-forwards :
      (bypass : Bool) (host : Bytes) (o : Option Bytes) → forwards (shown w bypass host o) ≡ false
  unfolding forwards
  shown-forwards bypass host none = refl
  shown-forwards true host (some key) = refl
  shown-forwards false host (some key) = refl

  step-none :
      (message : Bytes) (o : Option Bytes) (rest : List Action)
      → forwards (step w message o rest) ≡ true
      → o ≡ none
  unfolding forwards
  step-none message none rest h = refl
  step-none message (some e) rest h = absurd (false≢true h)

  handshake-IsAccepted :
      (args : List JsValue) (a : InitArgs) (methods : List (AuthMethod w.Signer))
      → forwards (handshake w args a methods) ≡ true
      → IsAccepted a
  unfolding handshake
  handshake-IsAccepted args a methods h =
      let result = w.client_conn methods (host_key_callback w a.bypass_fingerprint a.host) in
      let opening = step w (codes "failed to open ssh conn ") result.1 (open_session w args a) in
      let reached : forwards opening ≡ true = ground (
        arith,
        h,
        forwards-append (shown w a.bypass_fingerprint a.host result.0) opening,
        shown-forwards a.bypass_fingerprint a.host result.0,
      ) in
      let (key, offered, agreed) =
        checks methods (host_key_callback w a.bypass_fingerprint a.host)
          (step-none (codes "failed to open ssh conn ") result.1 (open_session w args a) reached) in
      elim (callback-accepts a.bypass_fingerprint a.host key agreed) [
        | inl b ↦ inl b
        | inr y ↦ inr (methods, key, offered, y)
      ]

  no_credentials-forwards : (a : InitArgs) → forwards (no_credentials w a) ≡ false
  unfolding forwards
  no_credentials-forwards a = ground arith

  dialled-IsAccepted :
      (args : List JsValue) (a : InitArgs) (o : Option Bytes)
      → forwards (dialled w args a o) ≡ true
      → IsAccepted a
  unfolding dialled forwards
  dialled-IsAccepted args a (some e) h = absurd (false≢true h)
  dialled-IsAccepted args a none h =
      let tail = with_methods w args a (key_methods w a.key a.pass) in
      let reached : forwards tail ≡ true =
        ground (arith, h, forwards-append (no_credentials w a) tail, no_credentials-forwards a) in
      with_methods-IsAccepted (key_methods w a.key a.pass) reached
    where
      with_methods-IsAccepted :
          (t : Tried (List (AuthMethod w.Signer)))
          → forwards (with_methods w args a t) ≡ true
          → IsAccepted a
      with_methods-IsAccepted (failed e) r = absurd (false≢true r)
      with_methods-IsAccepted (done methods) r =
          handshake-IsAccepted args a (chosen w a.use_webauth_key methods) r

  -- If output of a host reaches the console, the arguments were read, and either they ask for no check
  -- of the host's key or the user accepted, for that host, the fingerprint of the key that the host
  -- gave in the handshake.
  pub init-IsAccepted :
      (on_data_set : Bool) (args : List JsValue)
      → forwards (init w on_data_set args) ≡ true
      → (a : InitArgs) × (read_args args ≡ some a) × IsAccepted a
  unfolding init forwards
  init-IsAccepted on_data_set args h =
      let body = if ltb (length args) 7 then [] else with_args w args (read_args args) in
      let reached : forwards body ≡ true = ground arith in
      elim (Bool-cases (ltb (length args) 7)) [
        | inl q ↦ absurd (false≢true (rw (q) at reached))
        | inr q ↦ elim (Option-cases (read_args args)) [
          | inl n ↦ absurd (false≢true (rw (q, n) at reached))
          | inr (a, e) ↦
              (a, e, dialled-IsAccepted args a (w.con a.host a.port) (rw (q, e) at reached))
        ]
      ]
