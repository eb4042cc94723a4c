-- ===== src/Auth/Session.antt =====
-- proxy/auth.go: session tokens "<expiryUnix>.<hex hmac>". HMAC-SHA256 (package crypto/hmac) is a
-- parameter: key and message to the raw sum.
pub mod Laws
use ssheasy.Base.{
  ℕ, ◌+◌, ◌-◌, ◌*◌, ◌/◌, ◌%◌, ◌^◌, Bool, true, false, List, [], ◌∷◌, ◌++◌, Option, none, some,
  if◌then◌else◌, ltb,
}
use ssheasy.Base.Int.{ℤ, pos, negsuc, ◌-ℤ◌, ltb_ℤ}
use ssheasy.Base.Text.{Bytes, codes, bytes_eq, cut}
use ssheasy.Base.Decimal.{format_int, parse_int}

-- time.Time.Unix of an instant in nanoseconds since the zero time.
abbrev floor_seconds : ℤ → ℤ
floor_seconds (pos n) = pos (n / 10 ^ 9)
floor_seconds (negsuc n) = negsuc (n / 10 ^ 9)

unfoldable pub unix : ℤ → ℤ
unix t = floor_seconds t -ℤ pos 62135596800

hex_digit : ℕ → ℕ
hex_digit n = if ltb n 10 then b'0' + n else b'a' + (n - 10)

-- hex.EncodeToString
unfoldable pub hex_encode : Bytes → Bytes
unfolding hex_digit
hex_encode [] = []
hex_encode (c ∷ s) = hex_digit (c / 16 % 16) ∷ hex_digit (c % 16) ∷ hex_encode s

module _ (hmac_sha256 : Bytes → Bytes → Bytes) where
  -- sign, under the key `signKey`
  unfoldable pub sign : Bytes → Bytes → Bytes
  sign sign_key payload = hex_encode (hmac_sha256 sign_key payload)

  -- newSession
  unfoldable pub new_session : Bytes → ℤ → Bytes
  new_session sign_key expiry =
      let payload = format_int (unix expiry) in payload ++ b'.' ∷ sign sign_key payload

  -- validSession at the instant `now`
  unfoldable pub valid_session : Bytes → ℤ → Bytes → Bool
  valid_session sign_key now token = elim (cut b'.' token) [
    | none ↦ false
    | some (payload, mac) ↦
        if bytes_eq mac (sign sign_key payload)
        then elim (parse_int payload) [ none ↦ false | some expiry ↦ ltb_ℤ (unix now) expiry ]
        else false
  ]
