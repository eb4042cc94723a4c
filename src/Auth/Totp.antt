-- ===== src/Auth/Totp.antt =====
-- proxy/auth.go: the one-time codes of RFC 6238 (SHA1, 6 digits, 30 s). HMAC-SHA1 (package
-- crypto/hmac) is a parameter: key and message to the raw sum, which has 20 bytes.
pub mod Laws
use Prim.Native.Nat.{bit_and, bit_or}
use ssheasy.Base.{
  ℕ, zero, suc, ◌+◌, ◌-◌, ◌*◌, ◌/◌, ◌%◌, ◌^◌, Bool, true, false, ◌||◌, List, [], ◌∷◌, ◌++◌, length,
  get_or, if◌then◌else◌, ◌==◌, not,
}
use ssheasy.Base.Int.{ℤ, pos, negsuc, ◌+ℤ◌, ◌-ℤ◌, to_u64}
use ssheasy.Base.Text.{Bytes, bytes_eq}
use ssheasy.Base.Decimal.{format_nat}
use ssheasy.Auth.Session.{unix}

-- Division of an int64 by 30, which truncates towards zero.
abbrev pub div_30 : ℤ → ℤ
div_30 (pos n) = pos (n / 30)
div_30 (negsuc n) = pos 0 -ℤ pos ((n + 1) / 30)

-- binary.BigEndian.PutUint64 into eight bytes
unfoldable pub put_u64 : ℕ → Bytes
put_u64 v =
    (v / 2 ^ 56 % 256)
    ∷ (v / 2 ^ 48 % 256)
    ∷ (v / 2 ^ 40 % 256)
    ∷ (v / 2 ^ 32 % 256)
    ∷ (v / 2 ^ 24 % 256)
    ∷ (v / 2 ^ 16 % 256)
    ∷ (v / 2 ^ 8 % 256)
    ∷ (v % 256)
    ∷ []

zeros : ℕ → Bytes
zeros zero = []
zeros (suc n) = b'0' ∷ zeros n

-- fmt.Sprintf("%06d", n)
unfoldable pub pad_six : ℕ → Bytes
unfolding zeros
pad_six n = let s = format_nat n in zeros (6 - length s) ++ s

-- The 31-bit number that four bytes of the sum spell; x << k is x * 2 ^ k in a uint32, which holds it.
unfoldable pub truncate : Bytes → ℕ
truncate sum =
    let offset = bit_and (get_or sum (length sum - 1) 0) 0x0f in
    bit_or
      (bit_or
        (bit_or (bit_and (get_or sum offset 0) 0x7f * 2 ^ 24) (get_or sum (offset + 1) 0 * 2 ^ 16))
        (get_or sum (offset + 2) 0 * 2 ^ 8))
      (get_or sum (offset + 3) 0)

module _ (hmac_sha1 : Bytes → Bytes → Bytes) where
  -- totpAt, under the secret `totpSeed`
  unfoldable pub totp_at : Bytes → ℤ → Bytes
  totp_at seed counter = pad_six (truncate (hmac_sha1 seed (put_u64 (to_u64 counter))) % 1000000)

  -- verifyTOTP at the instant `now`
  unfoldable pub verify_totp : Bytes → Bytes → ℤ → Bool
  verify_totp seed code now =
      let counter = div_30 (unix now) in
      if not (length code == 6)
      then false
      else bytes_eq code (totp_at seed (counter -ℤ pos 1))
        || bytes_eq code (totp_at seed counter)
        || bytes_eq code (totp_at seed (counter +ℤ pos 1))
