-- ===== src/Webauthn/Examples.antt =====
-- The theorem about exported keys at a concrete credential.
use ssheasy.Base.{
  ℕ, Bool, ◌*◌, ◌+◌, ◌-◌, ◌^◌, ◌%◌, ◌==◌, ◌≡◌, refl, Option, [], ◌∷◌, ◌++◌, none, some,
  if◌then◌else◌,
}
use ssheasy.Base.Int.{ℤ, pos}
use ssheasy.Base.Text.{Bytes, codes}
use ssheasy.Webauthn.{
  Credential, set_bytes_from, ec2, Library, ssh_public_key, key_type, marshal, Exported,
  parse_public_key,
}
use ssheasy.Webauthn.Keys.{key_of, parse_public_key-ssh_public_key}

abbrev credential : Credential
credential = record {
  flags = 5;
  counter = 1;
  origin = codes "https://host";
  client_data = codes "{}";
  signature = [];
  credential_public_key = codes "key";
  raw_id = codes "id";
}

-- The coordinates of the base point of P-256.
abbrev xs : Bytes
xs =
    107 ∷ 23 ∷ 209 ∷ 242 ∷ 225 ∷ 44 ∷ 66 ∷ 71 ∷ 248 ∷ 188 ∷ 230 ∷ 229 ∷ 99 ∷ 164 ∷ 64 ∷ 242 ∷ 119
    ∷ 3 ∷ 125 ∷ 129 ∷ 45 ∷ 235 ∷ 51 ∷ 160 ∷ 244 ∷ 161 ∷ 57 ∷ 69 ∷ 216 ∷ 152 ∷ 194 ∷ 150 ∷ []

abbrev ys : Bytes
ys =
    79 ∷ 227 ∷ 66 ∷ 226 ∷ 254 ∷ 26 ∷ 127 ∷ 155 ∷ 142 ∷ 231 ∷ 235 ∷ 74 ∷ 124 ∷ 15 ∷ 158 ∷ 22 ∷ 43
    ∷ 206 ∷ 51 ∷ 87 ∷ 107 ∷ 49 ∷ 94 ∷ 206 ∷ 203 ∷ 182 ∷ 64 ∷ 104 ∷ 55 ∷ 191 ∷ 81 ∷ 245 ∷ []

-- The prime of the curve and its coefficient b.
abbrev prime : ℕ
prime = 2 ^ 256 - 2 ^ 224 + 2 ^ 192 + 2 ^ 96 - 1

abbrev coefficient : ℕ
coefficient = 41058363725152142129326129780047268409114441015993725554835256314039467401291

abbrev is_on_curve : ℕ → ℕ → Bool
is_on_curve x y = y * y % prime == (x * x * x + (prime - 3) * x + coefficient) % prime

abbrev encoded : ℤ → ℤ → Option Bytes
encoded (pos x) (pos y) = if is_on_curve x y then some (codes "point") else none
encoded _ _ = none

-- A library whose encodings join their parts, but for that of a point.
abbrev lib : Library
lib = record {
  base64 = λ s. s;
  parse_credential = λ json. some credential;
  parse_cose = λ key. some (ec2 xs ys);
  asn1_signature = λ s. none;
  ssh_marshal = λ fields. codes "blob";
  elliptic_marshal = encoded;
  marshal_authorized_key = λ type blob. type ++ blob;
}

parse_public_key-ssh_public_key_example :
    (out : Exported lib) × (blob : Bytes) × (parse_public_key lib (codes "host") (codes "{}")
      ≡ some out)
    × (ssh_public_key out.x out.y out.host_name ≡ key_of xs ys (codes "host"))
    × (marshal lib (ssh_public_key out.x out.y out.host_name) ≡ some blob)
    × (out.ssh_key ≡ lib.marshal_authorized_key key_type blob)
unfolding set_bytes_from
parse_public_key-ssh_public_key_example =
    parse_public_key-ssh_public_key lib (codes "host") (codes "{}") xs ys (codes "point") credential
      refl refl refl
