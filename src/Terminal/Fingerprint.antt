-- ===== src/Terminal/Fingerprint.antt =====
-- The fingerprint that the user compares tells digests apart.
use ssheasy.Base.{
  ℕ, ◌+◌, ◌-◌, ◌/◌, ◌%◌, ◌<◌, ◌≡◌, ◌≢◌, refl, sym, [], ◌∷◌, ◌++◌, All, if◌then◌else◌, arith, ltb,
}
use ssheasy.Base.Text.{Bytes}
use ssheasy.Auth.Session.{hex_encode}
use ssheasy.Terminal.{more_bytes, fingerprint_md5}

cons_injective : {x y : ℕ} {s t : Bytes} → x ∷ s ≡ y ∷ t → (x ≡ y) × (s ≡ t)
cons_injective h = (cc, cc)

abbrev IsByte : ℕ → Type 0
IsByte b = b < 256

-- The digit of FingerprintMD5's %02x.
abbrev digit : ℕ → ℕ
digit n = if ltb n 10 then 48 + n else 97 + (n - 10)

digit_injective : (m n : ℕ) → digit m ≡ digit n → m ≡ n
digit_injective m n h = ground arith

hex_encode-byte :
    (a b : ℕ) (s t : Bytes)
    → IsByte a
    → IsByte b
    → hex_encode (a ∷ []) ++ s ≡ hex_encode (b ∷ []) ++ t
    → (a ≡ b) × (s ≡ t)
unfolding hex_encode
hex_encode-byte a b s t ha hb h =
    let (high, more) = cons_injective h in
    let (low, rest) = cons_injective more in
    let high_same : a / 16 % 16 ≡ b / 16 % 16 = digit_injective (a / 16 % 16) (b / 16 % 16) high in
    let low_same : a % 16 ≡ b % 16 = digit_injective (a % 16) (b % 16) low in (omega arith, rest)

nil-ne-cons : {x : ℕ} {s : Bytes} → [] ≢ x ∷ s
nil-ne-cons h = cc

nil-ne-hex : (b : ℕ) (s : Bytes) → [] ≢ hex_encode (b ∷ []) ++ s
unfolding hex_encode
nil-ne-hex b s h = nil-ne-cons h

more_bytes_injective :
    (s t : Bytes) → All IsByte s → All IsByte t → more_bytes s ≡ more_bytes t → s ≡ t
unfolding more_bytes
more_bytes_injective [] [] hs ht h = refl
more_bytes_injective [] (b ∷ t) hs ht h = absurd (nil-ne-cons h)
more_bytes_injective (a ∷ s) [] hs ht h = absurd (nil-ne-cons (sym h))
more_bytes_injective (a ∷ s) (b ∷ t) (ha, hs) (hb, ht) h =
    let (same, rest) =
      hex_encode-byte a b (more_bytes s) (more_bytes t) ha hb (cons_injective h).1 in
    let same_rest = more_bytes_injective s t hs ht rest in cc

-- Two digests with one fingerprint are one digest.
fingerprint_md5_injective :
    (s t : Bytes) → All IsByte s → All IsByte t → fingerprint_md5 s ≡ fingerprint_md5 t → s ≡ t
unfolding fingerprint_md5
fingerprint_md5_injective [] [] hs ht h = refl
fingerprint_md5_injective [] (b ∷ t) hs ht h = absurd (nil-ne-hex b (more_bytes t) h)
fingerprint_md5_injective (a ∷ s) [] hs ht h = absurd (nil-ne-hex a (more_bytes s) (sym h))
fingerprint_md5_injective (a ∷ s) (b ∷ t) (ha, hs) (hb, ht) h =
    let (same, rest) = hex_encode-byte a b (more_bytes s) (more_bytes t) ha hb h in
    let same_rest = more_bytes_injective s t hs ht rest in cc
