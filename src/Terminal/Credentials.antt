-- ===== src/Terminal/Credentials.antt =====
-- Which credentials are offered to the host.
use ssheasy.Base.{
  true, false, ◌≡◌, ◌≢◌, refl, sym, subst, ◌⊎◌, inl, inr, List, [], ◌∷◌, All, All-append,
  Bool-cases, arith,
}
use ssheasy.Base.Text.{Bytes, bytes_eq, bytes_eq_iff}
use ssheasy.Terminal.{
  Tried, failed, done, Parsed, signer, passphrase_missing, broken, AuthMethod, public_keys,
  password, World, InitArgs, with_password, with_passphrase, with_key, key_methods, chosen,
}

failed-ne-done : {A : Type 0} {x : A} {e : Bytes} → failed e ≢ done x
failed-ne-done h = cc

done_injective : {A : Type 0} {x y : A} → done x ≡ done y → x ≡ y
done_injective h = cc

module _ (w : World) where
  -- A method that `a` gives reason to offer: with a WebAuthn key, that key only; else a key that parses as
  -- it is, or with the password as its passphrase; or the password, if no key needed it as a passphrase.
  pub data IsDue (a : InitArgs) : AuthMethod w.Signer → Type 0 where
    webauthn : a.use_webauth_key ≡ true → IsDue a (public_keys w.webauthn_signer)
    plain_key :
        (s : w.Signer)
        → a.use_webauth_key ≡ false
        → w.parse_private_key a.key ≡ signer s
        → IsDue a (public_keys s)
    locked_key :
        (s : w.Signer) (e : Bytes)
        → a.use_webauth_key ≡ false
        → w.parse_private_key a.key ≡ passphrase_missing e
        → w.parse_with_passphrase a.key a.pass ≡ done s
        → IsDue a (public_keys s)
    typed_password :
        a.use_webauth_key ≡ false
        → a.pass ≢ []
        → (a.key ≡ []) ⊎ ((s : w.Signer) × (w.parse_private_key a.key ≡ signer s))
        → IsDue a (password a.pass)

  with_password-IsDue :
      (a : InitArgs) (ms : List (AuthMethod w.Signer))
      → a.use_webauth_key ≡ false
      → (a.key ≡ []) ⊎ ((s : w.Signer) × (w.parse_private_key a.key ≡ signer s))
      → All (IsDue a) ms
      → All (IsDue a) (with_password w a.pass ms)
  with_password-IsDue a ms no_webauthn open_key h = elim (Bool-cases (bytes_eq a.pass [])) [
    | inl q ↦ rw (q) h
    | inr q ↦
        let given : a.pass ≢ [] = ground (arith, bytes_eq_iff a.pass []) in
        rw (q) (
          All-append (IsDue a) ms (password a.pass ∷ []) h
            (typed_password no_webauthn given open_key, tt))
  ]

  with_passphrase-IsDue :
      (a : InitArgs) (e : Bytes) (ms : List (AuthMethod w.Signer)) (t : Tried w.Signer)
      → a.use_webauth_key ≡ false
      → w.parse_private_key a.key ≡ passphrase_missing e
      → w.parse_with_passphrase a.key a.pass ≡ t
      → with_passphrase w t ≡ done ms
      → All (IsDue a) ms
  with_passphrase-IsDue a e ms (failed f) no_webauthn p q h = absurd (failed-ne-done h)
  with_passphrase-IsDue a e ms (done s) no_webauthn p q h =
      rw (sym (done_injective h)) (locked_key s e no_webauthn p q, tt)

  with_key-IsDue :
      (a : InitArgs) (ms : List (AuthMethod w.Signer)) (parsed : Parsed w.Signer)
      → a.use_webauth_key ≡ false
      → w.parse_private_key a.key ≡ parsed
      → with_key w a.key a.pass parsed ≡ done ms
      → All (IsDue a) ms
  with_key-IsDue a ms (signer s) no_webauthn p h = rw (sym (done_injective h)) (
      with_password-IsDue a (public_keys s ∷ []) no_webauthn (inr (s, p))
        (plain_key s no_webauthn p, tt))
  with_key-IsDue a ms (broken e) no_webauthn p h = absurd (failed-ne-done h)
  with_key-IsDue a ms (passphrase_missing e) no_webauthn p h =
      elim (Bool-cases (bytes_eq a.pass [])) [
        | inl q ↦ absurd (failed-ne-done (rw (q) at h))
        | inr q ↦
            with_passphrase-IsDue a e ms (w.parse_with_passphrase a.key a.pass) no_webauthn p refl
              (rw (q) at h)
      ]

  key_methods-IsDue :
      (a : InitArgs) (ms : List (AuthMethod w.Signer))
      → a.use_webauth_key ≡ false
      → key_methods w a.key a.pass ≡ done ms
      → All (IsDue a) ms
  unfolding key_methods
  key_methods-IsDue a ms no_webauthn h = elim (Bool-cases (bytes_eq a.key [])) [
    | inl q ↦
        let same : with_password w a.pass [] ≡ ms = done_injective (rw (q) at h) in
        rw (sym same) (with_password-IsDue a [] no_webauthn (inl ((bytes_eq_iff a.key []).0 q)) tt)
    | inr q ↦ with_key-IsDue a ms (w.parse_private_key a.key) no_webauthn refl (rw (q) at h)
  ]

  -- If the private key parses, every method that is offered to the host is due: a WebAuthn key is offered
  -- alone, and a password that was needed as the passphrase of the key is not sent.
  pub chosen-IsDue :
      (a : InitArgs) (ms : List (AuthMethod w.Signer))
      → key_methods w a.key a.pass ≡ done ms
      → All (IsDue a) (chosen w a.use_webauth_key ms)
  chosen-IsDue a ms h = elim (Bool-cases a.use_webauth_key) [
    | inl q ↦ subst (λ b. All (IsDue a) (chosen w b ms)) (sym q) (webauthn q, tt)
    | inr q ↦ subst (λ b. All (IsDue a) (chosen w b ms)) (sym q) (key_methods-IsDue a ms q h)
  ]
