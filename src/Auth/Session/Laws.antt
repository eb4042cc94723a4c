-- ===== src/Auth/Session/Laws.antt =====
-- A session token is accepted exactly if the server signed it and it has not expired.
use ssheasy.Base.{
  suc, ◌≡◌, ap, sym, subst, true, [], ◌∷◌, ◌++◌, ◌↔◌, some, arith, All, Option-cases, inl, inr,
}
use ssheasy.Base.Int.{ℤ, pos, negsuc, ltb_ℤ, IsInt64}
use ssheasy.Base.Text.{Bytes, bytes_eq_iff, bytes_eq_refl, cut}
use ssheasy.Base.Text.Laws.{Lacks, cut-append, cut_sound}
use ssheasy.Base.Decimal.{format_int, parse_int, IsDigit, format_nat-IsDigit, parse_int-format_int}
use ssheasy.Auth.Session.{unix, sign, new_session, valid_session}

Digits-Lacks : (s : Bytes) → All IsDigit s → Lacks b'.' s
Digits-Lacks [] d = tt
Digits-Lacks (c ∷ s) (h, d) = (λ e. absurd (omega arith), Digits-Lacks s d)

format_int-Lacks : (x : ℤ) → Lacks b'.' (format_int x)
unfolding format_int
format_int-Lacks (pos n) = Digits-Lacks _ (format_nat-IsDigit n)
format_int-Lacks (negsuc n) =
    (λ e. absurd (omega arith), Digits-Lacks _ (format_nat-IsDigit (suc n)))

module _ (hmac_sha256 : Bytes → Bytes → Bytes) (key : Bytes) where
  -- What a token says that the server has signed with `key`.
  pub record Signed (now : ℤ) (token : Bytes) : Type 0 where
    pub payload : Bytes
    pub expiry : ℤ
    pub shape : token ≡ payload ++ b'.' ∷ sign hmac_sha256 key payload
    pub lacks : Lacks b'.' payload
    pub reads : parse_int payload ≡ some expiry
    pub alive : ltb_ℤ (unix now) expiry ≡ true

  accepted :
      (now : ℤ) (p m : Bytes)
      → Lacks b'.' p
      → valid_session hmac_sha256 key now (p ++ b'.' ∷ m) ≡ true
      → Signed now (p ++ b'.' ∷ m)
  unfolding valid_session
  accepted now p m l h = elim (Option-cases (parse_int p)) [
    | inl e ↦ absurd (ground (arith, cut-append b'.' p m l))
    | inr (x, e) ↦ record {
      payload = p;
      expiry = x;
      shape =
          ap (λ t. p ++ b'.' ∷ t)
            ((bytes_eq_iff m (sign hmac_sha256 key p)).0 (ground (arith, cut-append b'.' p m l)));
      lacks = l;
      reads = e;
      alive = ground (arith, cut-append b'.' p m l);
    }
  ]

  -- A token is valid exactly if it is a text without a dot that spells an int64 expiry later than
  -- the current second, a dot, and that text's signature.
  pub valid_session_iff :
      (now : ℤ) (token : Bytes)
      → (valid_session hmac_sha256 key now token ≡ true) ↔ Signed now token
  unfolding valid_session
  valid_session_iff now token = (sound, complete)
    where
      sound : valid_session hmac_sha256 key now token ≡ true → Signed now token
      sound h = elim (Option-cases (cut b'.' token)) [
        | inl e ↦ cc (rw (e, valid_session) at h)
        | inr ((p, m), e) ↦
            let (shape, l) = cut_sound b'.' token p m e in
            subst (Signed now) (sym shape)
              (accepted now p m l (subst (λ t. valid_session hmac_sha256 key now t ≡ true) shape h))
      ]

      complete : Signed now token → valid_session hmac_sha256 key now token ≡ true
      complete s =
          rw
            (
              s.shape,
              valid_session,
              cut-append b'.' s.payload (sign hmac_sha256 key s.payload) s.lacks,
              bytes_eq_refl (sign hmac_sha256 key s.payload),
              s.reads,
            )
            s.alive

  -- The token of newSession, for an expiry whose second is an int64, is valid until that second and not
  -- from then on.
  pub valid_session-new_session :
      (now expiry : ℤ)
      → IsInt64 (unix expiry)
      → valid_session hmac_sha256 key now (new_session hmac_sha256 key expiry)
        ≡ ltb_ℤ (unix now) (unix expiry)
  unfolding valid_session new_session
  valid_session-new_session now expiry h = rw (
    valid_session,
    new_session,
    cut-append b'.' (format_int (unix expiry)) (sign hmac_sha256 key (format_int (unix expiry)))
        (format_int-Lacks (unix expiry)),
    bytes_eq_refl (sign hmac_sha256 key (format_int (unix expiry))),
    parse_int-format_int (unix expiry) h,
  )
