-- ===== src/Webauthn/Keys.antt =====
-- The key that a later connection uses is the key that was exported.
use ssheasy.Base.{ℕ, ◌≡◌, ◌≢◌, refl, ap, ◌∙◌, [], ◌∷◌, All, some, ◌>>=◌, arith}
use ssheasy.Base.Int.{pos}
use ssheasy.Base.Text.{Bytes, codes}
use ssheasy.Base.Decimal.{
  format_nat, parse_digits, IsDigit, format_nat-IsDigit, format_nat-ne-nil, parse_digits-format_nat,
}
use ssheasy.Webauthn.{
  Credential, ec2, text, Library, set_bytes, set_string, PublicKey, ssh_public_key, key_type,
  marshal, Exported, parse_public_key,
}

set_string-unsigned :
    (s : Bytes) → s ≢ [] → All IsDigit s → set_string s ≡ (parse_digits s >>= (λ n. some (pos n)))
unfolding set_string
set_string-unsigned [] h d = absurd (h refl)
set_string-unsigned (c ∷ s) h d = ground arith

-- SetString reads what String writes.
set_string-format_nat : (n : ℕ) → set_string (format_nat n) ≡ some (pos n)
set_string-format_nat n =
    set_string-unsigned (format_nat n) (format_nat-ne-nil n) (format_nat-IsDigit n)
    ∙ ap (λ o. o >>= (λ m. some (pos m))) (parse_digits-format_nat n)

-- The key with these coordinates.
abbrev pub key_of : Bytes → Bytes → Bytes → PublicKey
key_of xs ys host_name = record {
  x = some (pos (set_bytes xs));
  y = some (pos (set_bytes ys));
  application = host_name;
}

ssh_public_key-format_nat :
    (xs ys host_name : Bytes)
    → ssh_public_key (format_nat (set_bytes xs)) (format_nat (set_bytes ys)) host_name
      ≡ key_of xs ys host_name
unfolding ssh_public_key
ssh_public_key-format_nat xs ys host_name =
    rw (set_string-format_nat (set_bytes xs), set_string-format_nat (set_bytes ys)) refl

-- The two coordinates are those of a point of P-256, which is encoded as `point`.
abbrev pub IsPoint : Library → Bytes → Bytes → Bytes → Type 0
IsPoint lib xs ys point =
    lib.elliptic_marshal (pos (set_bytes xs)) (pos (set_bytes ys)) ≡ some point

abbrev encoding : Library → PublicKey → Bytes → Bytes
encoding lib k point =
    lib.ssh_marshal (text key_type ∷ text (codes "nistp256") ∷ text point ∷ text k.application ∷ [])

marshal-format_nat :
    (lib : Library) (xs ys host_name point : Bytes)
    → IsPoint lib xs ys point
    → marshal lib (ssh_public_key (format_nat (set_bytes xs)) (format_nat (set_bytes ys)) host_name)
      ≡ some (encoding lib (key_of xs ys host_name) point)
unfolding marshal
marshal-format_nat lib xs ys host_name point h =
    rw (ssh_public_key-format_nat xs ys host_name, h) refl

-- For a credential that parses, with an EC2 key whose point is on P-256, parsePublicKey does not panic. The key that
-- sshPublicKey makes later of the exported texts has the coordinates of the credential, and its encoding
-- is the one in the exported line for the server.
pub parse_public_key-ssh_public_key :
    (lib : Library) (host_name json xs ys point : Bytes) (c : Credential)
    → lib.parse_credential json ≡ some c
    → lib.parse_cose c.credential_public_key ≡ some (ec2 xs ys)
    → IsPoint lib xs ys point
    → (out : Exported lib) × (blob : Bytes) × (parse_public_key lib host_name json ≡ some out)
      × (ssh_public_key out.x out.y out.host_name ≡ key_of xs ys host_name)
      × (marshal lib (ssh_public_key out.x out.y out.host_name) ≡ some blob)
      × (out.ssh_key ≡ lib.marshal_authorized_key key_type blob)
unfolding parse_public_key
parse_public_key-ssh_public_key lib host_name json xs ys point c parsed cose on =
    let blob = encoding lib (key_of xs ys host_name) point in
    let key_same = ssh_public_key-format_nat xs ys host_name in
    let marshalled = marshal-format_nat lib xs ys host_name point on in
    (
      record {
        ssh_key = lib.marshal_authorized_key key_type blob;
        host_name = host_name;
        x = format_nat (set_bytes xs);
        y = format_nat (set_bytes ys);
        id = lib.base64 c.raw_id;
      },
      blob,
      rw (parsed, cose, marshalled) refl,
      key_same,
      marshalled,
      refl,
    )
