-- ===== src/Terminal/Closing.antt =====
-- Which calls of initConnection leave the connection to the proxy open.
use ssheasy.Base.{
  Bool, true, false, ◌≡◌, ◌≢◌, refl, sym, ◌∙◌, ◌⊎◌, ◌↔◌, inl, inr, List, [], ◌∷◌, ◌++◌, Option,
  none, some, ◌||◌, ◌&&◌, not, Bool-cases, length, ltb,
}
use ssheasy.Base.Text.{Bytes, codes, bytes_eq}
use ssheasy.Terminal.{
  JsValue, Tried, failed, done, Action, dispose, dial, close_con, forward_out_streams, keepalive,
  on_data, crash, show_err, show_server_key, connected, World, InitArgs, AuthMethod, read_args,
  shown, step, pty, has_size, open_session, open_terminal, host_key_callback, handshake,
  with_methods, key_methods, no_credentials, dialled, init, chosen,
}

-- The connection after an action.
abbrev turns : Bool → Action → Bool
turns o dispose = o
turns o dial = true
turns o close_con = false
turns o forward_out_streams = o
turns o keepalive = o
turns o on_data = o
turns o crash = o
turns o (show_err e) = o
turns o (show_server_key h f) = o
turns o (connected s) = o

-- Whether the connection is open after the actions.
unfoldable pub stays_open : Bool → List Action → Bool
stays_open o [] = o
stays_open o (x ∷ xs) = stays_open (turns o x) xs

abbrev is_connected : Action → Bool
is_connected dispose = false
is_connected dial = false
is_connected close_con = false
is_connected forward_out_streams = false
is_connected keepalive = false
is_connected on_data = false
is_connected crash = false
is_connected (show_err e) = false
is_connected (show_server_key h f) = false
is_connected (connected s) = true

-- Whether the page is told that it is connected.
unfoldable pub connects : List Action → Bool
connects [] = false
connects (x ∷ xs) = is_connected x || connects xs

done-ne-failed : {A : Type 0} {x : A} {e : Bytes} → done x ≢ failed e
done-ne-failed h = cc

-- Actions of an open connection that leave it open only if they connect.
record IsClean (xs : List Action) : Type 0 where
  clean : stays_open true xs ≡ connects xs

module _ (w : World) where
  step-IsClean :
      (message : Bytes) (o : Option Bytes) (rest : List Action)
      → IsClean rest
      → IsClean (step w message o rest)
  unfolding stays_open connects
  step-IsClean message none rest h = h
  step-IsClean message (some e) rest h = record { clean = refl }

  output-IsClean : (rest : List Action) → IsClean rest → IsClean (forward_out_streams ∷ rest)
  unfolding stays_open connects
  output-IsClean rest h = record { clean = h.clean }

  open_terminal-IsClean :
      (args : List JsValue) (a : InitArgs)
      → has_size w args ≡ true
      → IsClean (open_terminal w args a)
  unfolding stays_open connects
  open_terminal-IsClean args a size =
      let last =
        keepalive
        ∷ on_data
        ∷ connected (codes "Connected to " ++ (a.usr ++ (codes "@" ++ a.host)))
        ∷ [] in
      let shell = codes "failed to start ssh shell: " in
      rw (size) (
        step-IsClean (codes "failed to request a pseudo terminal: ") (pty w args)
          (step w shell w.shell last) (step-IsClean shell w.shell last (record { clean = refl })))

  open_session-IsClean :
      (args : List JsValue) (a : InitArgs)
      → has_size w args ≡ true
      → IsClean (open_session w args a)
  unfolding open_session
  open_session-IsClean args a size =
      let terminal = open_terminal w args a in
      let input =
        forward_out_streams ∷ step w (codes "failed to open stdin: ") w.stdin_pipe terminal in
      let stderr = step w (codes "failed to open stderr: ") w.stderr_pipe input in
      let stdout = step w (codes "failed to open stdout: ") w.stdout_pipe stderr in
      step-IsClean (codes "failed to create new ssh session ") w.new_session stdout (
        step-IsClean (codes "failed to open stdout: ") w.stdout_pipe stderr (
          step-IsClean (codes "failed to open stderr: ") w.stderr_pipe input (
            output-IsClean _ (
              step-IsClean (codes "failed to open stdin: ") w.stdin_pipe terminal
                (open_terminal-IsClean args a size)))))

  shown-IsClean :
      (bypass : Bool) (host : Bytes) (o : Option Bytes) (rest : List Action)
      → IsClean rest
      → IsClean (shown w bypass host o ++ rest)
  unfolding stays_open connects
  shown-IsClean bypass host none rest h = h
  shown-IsClean true host (some key) rest h = h
  shown-IsClean false host (some key) rest h = record { clean = h.clean }

  handshake-IsClean :
      (args : List JsValue) (a : InitArgs) (methods : List (AuthMethod w.Signer))
      → has_size w args ≡ true
      → IsClean (handshake w args a methods)
  unfolding handshake
  handshake-IsClean args a methods size =
      let result = w.client_conn methods (host_key_callback w a.bypass_fingerprint a.host) in
      let message = codes "failed to open ssh conn " in
      shown-IsClean a.bypass_fingerprint a.host result.0
        (step w message result.1 (open_session w args a))
        (step-IsClean message result.1 (open_session w args a) (open_session-IsClean args a size))

  no_credentials-skip :
      (a : InitArgs) (xs : List Action)
      → (stays_open true (no_credentials w a ++ xs) ≡ stays_open true xs)
        × (connects (no_credentials w a ++ xs) ≡ connects xs)
  unfolding stays_open connects
  no_credentials-skip a xs =
      elim (Bool-cases (bytes_eq a.pass [] && bytes_eq a.key [] && not a.use_webauth_key)) [
        | inl q ↦ rw (q) (refl, refl)
        | inr q ↦ rw (q) (refl, refl)
      ]

  -- What becomes of an open connection behind the parsing of the key.
  with_methods-ends :
      (args : List JsValue) (a : InitArgs)
      → has_size w args ≡ true
      → (t : Tried (List (AuthMethod w.Signer)))
      → (stays_open true (with_methods w args a t) ≡ true)
        ↔ ((connects (with_methods w args a t) ≡ true) ⊎ (e : Bytes) × (t ≡ failed e))
  unfolding stays_open connects
  with_methods-ends args a size (failed e) = (λ h. inr (e, refl), λ h. refl)
  with_methods-ends args a size (done methods) =
      let c = (handshake-IsClean args a (chosen w a.use_webauth_key methods) size).clean in
      (λ h. inl (sym c ∙ h), λ h. elim h [ inl k ↦ c ∙ k | inr (e, k) ↦ absurd (done-ne-failed k) ])

  dialled-ends :
      (args : List JsValue) (a : InitArgs)
      → has_size w args ≡ true
      → (stays_open false (dialled w args a none) ≡ true) ↔ (
          (connects (dialled w args a none) ≡ true)
          ⊎ (e : Bytes) × (key_methods w a.key a.pass ≡ failed e))
  unfolding dialled stays_open connects
  dialled-ends args a size =
      let (same_open, same_connects) =
        no_credentials-skip a (with_methods w args a (key_methods w a.key a.pass)) in
      rw (same_open, same_connects) (with_methods-ends args a size (key_methods w a.key a.pass))

  -- A call that reads its arguments, the size of the terminal included, and reaches the proxy leaves the
  -- connection open exactly if it tells the page that it is connected, or if the private key does not
  -- parse: every later failure closes it, and that one does not.
  pub init-stays_open :
      (on_data_set : Bool) (args : List JsValue) (a : InitArgs)
      → ltb (length args) 7 ≡ false
      → read_args args ≡ some a
      → has_size w args ≡ true
      → w.con a.host a.port ≡ none
      → (stays_open false (init w on_data_set args) ≡ true) ↔ (
          (connects (init w on_data_set args) ≡ true)
          ⊎ (e : Bytes) × (key_methods w a.key a.pass ≡ failed e))
  unfolding init stays_open connects
  init-stays_open true args a enough read size reached =
      rw (enough, read, reached) (dialled-ends args a size)
  init-stays_open false args a enough read size reached =
      rw (enough, read, reached) (dialled-ends args a size)
