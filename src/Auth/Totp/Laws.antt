-- ===== src/Auth/Totp/Laws.antt =====
-- A code has six digits whatever the sum is, and exactly the codes of three steps are accepted.
use ssheasy.Base.{
  ℕ, zero, suc, ◌-◌, ◌≡◌, ◌<◌, refl, true, ◌↔◌, ◌⊎◌, arith, length, length-append, All, All-append,
}
use ssheasy.Base.Int.{ℤ, pos, ◌+ℤ◌, ◌-ℤ◌}
use ssheasy.Base.Text.{Bytes, bytes_eq_iff}
use ssheasy.Base.Decimal.{format_nat, length-format_nat, IsDigit, format_nat-IsDigit}
use ssheasy.Auth.Session.{unix}
use ssheasy.Auth.Totp.{div_30, zeros, pad_six, totp_at, verify_totp}

length-zeros : (n : ℕ) → length (zeros n) ≡ n
unfolding zeros
length-zeros zero = refl
length-zeros (suc n) = omega (arith, length-zeros n)

zeros-IsDigit : (n : ℕ) → All IsDigit (zeros n)
unfolding zeros
zeros-IsDigit zero = tt
zeros-IsDigit (suc n) = ground (arith, zeros-IsDigit n)

length-pad_six : (n : ℕ) → n < 1000000 → length (pad_six n) ≡ 6
unfolding pad_six
length-pad_six n h = omega (
  arith,
  length-append (zeros (6 - length (format_nat n))) (format_nat n),
  length-zeros (6 - length (format_nat n)),
  length-format_nat n h,
)

module _ (hmac_sha1 : Bytes → Bytes → Bytes) (seed : Bytes) where
  pub length-totp_at : (c : ℤ) → length (totp_at hmac_sha1 seed c) ≡ 6
  unfolding totp_at
  length-totp_at c = length-pad_six _ (omega arith)

  pub totp_at-IsDigit : (c : ℤ) → All IsDigit (totp_at hmac_sha1 seed c)
  unfolding totp_at pad_six
  totp_at-IsDigit c =
      All-append IsDigit (zeros (6 - length (format_nat _))) _ (zeros-IsDigit _)
        (format_nat-IsDigit _)

  -- The codes of the current step and of its two neighbours.
  abbrev pub InWindow : ℤ → Bytes → Type 0
  InWindow now code =
      let counter = div_30 (unix now) in
      (code ≡ totp_at hmac_sha1 seed (counter -ℤ pos 1))
      ⊎ (code ≡ totp_at hmac_sha1 seed counter)
      ⊎ (code ≡ totp_at hmac_sha1 seed (counter +ℤ pos 1))

  -- A code is accepted exactly if it is the code of the current step or of a neighbour: the length
  -- test refuses no such code.
  pub verify_totp_iff :
      (code : Bytes) (now : ℤ) → (verify_totp hmac_sha1 seed code now ≡ true) ↔ InWindow now code
  unfolding verify_totp
  verify_totp_iff code now =
      let counter = div_30 (unix now) in
      let before = totp_at hmac_sha1 seed (counter -ℤ pos 1) in
      let here = totp_at hmac_sha1 seed counter in
      let behind = totp_at hmac_sha1 seed (counter +ℤ pos 1) in
      ground (
        arith,
        bytes_eq_iff code before,
        bytes_eq_iff code here,
        bytes_eq_iff code behind,
        length-totp_at (counter -ℤ pos 1),
        length-totp_at counter,
        length-totp_at (counter +ℤ pos 1),
      )
