-- ===== src/Webauthn.antt =====
-- web/webauth.go: the signer that asks the browser's authenticator, its public key, and the export of that
-- key to the page. The browser, the parsers of go-webauthn, ASN.1, base64 and the encoders of x/crypto/ssh
-- are parameters; big.Int is modelled as far as it is used.
pub mod Keys
mod Examples
use ssheasy.Base.{
  ℕ, zero, suc, ◌+◌, ◌*◌, List, [], ◌∷◌, ◌++◌, Option, none, some, ◌>>=◌, if◌then◌else◌, ◌==◌,
}
use ssheasy.Base.Int.{ℤ, pos, negsuc}
use ssheasy.Base.Text.{Bytes, codes}
use ssheasy.Base.Decimal.{format_nat, parse_digits}

-- What is read of a parsed credential.
pub record Credential : Type 0 where
  pub flags : ℕ
  pub counter : ℕ
  pub origin : Bytes
  pub client_data : Bytes
  pub signature : Bytes
  pub credential_public_key : Bytes
  pub raw_id : Bytes

-- webauthncose.ParsePublicKey: an EC2 key with its coordinates, or another kind.
pub data CoseKey : Type 0 where
  ec2 : Bytes → Bytes → CoseKey
  other_kind : CoseKey

-- A field of a struct that ssh.Marshal encodes.
pub data Field : Type 0 where
  text : Bytes → Field
  byte uint32 : ℕ → Field
  mpint : ℤ → Field

pub record Library : Type 0 where
  pub base64 : Bytes → Bytes
  pub parse_credential : Bytes → Option Credential
  pub parse_cose : Bytes → Option CoseKey
  pub asn1_signature : Bytes → Option (ℤ × ℤ)
  pub ssh_marshal : List Field → Bytes
  -- elliptic.Marshal for the curve P-256; `none` is its panic, on a point that is not on the curve
  pub elliptic_marshal : ℤ → ℤ → Option Bytes
  pub marshal_authorized_key : Bytes → Bytes → Bytes

-- big.Int: SetBytes, and SetString in base 10, where `none` is the nil that a bad text gives.
unfoldable pub set_bytes_from : ℕ → Bytes → ℕ
set_bytes_from n [] = n
set_bytes_from n (b ∷ bs) = set_bytes_from (n * 256 + b) bs

abbrev pub set_bytes : Bytes → ℕ
set_bytes s = set_bytes_from 0 s

abbrev negated : ℕ → ℤ
negated zero = pos 0
negated (suc n) = negsuc n

unfoldable pub set_string : Bytes → Option ℤ
set_string [] = none
set_string (c ∷ s) =
    if c == b'-'
    then parse_digits s >>= (λ n. some (negated n))
    else if c == b'+'
    then parse_digits s >>= (λ n. some (pos n))
    else parse_digits (c ∷ s) >>= (λ n. some (pos n))

-- webauthPublicKey; a coordinate may be nil.
pub record PublicKey : Type 0 where
  pub x : Option ℤ
  pub y : Option ℤ
  pub application : Bytes

-- sshPublicKey
unfoldable pub ssh_public_key : Bytes → Bytes → Bytes → PublicKey
ssh_public_key x y host_name = record {
  x = set_string x;
  y = set_string y;
  application = host_name;
}

-- Type of the public key, and the format of a signature.
abbrev pub key_type : Bytes
key_type = codes "webauthn-sk-ecdsa-sha2-nistp256@openssh.com"

-- What await gives: the arguments of `then`, or those of `catch`.
pub data Awaited : Type 0 where
  resolved rejected : List Bytes → Awaited

pub record Signature : Type 0 where
  pub format : Bytes
  pub blob : Bytes
  pub rest : Bytes

pub data Signed : Type 0 where
  signs : Signature → Signed
  not_retrieved not_parsed bad_signature panics : Signed

module _ (lib : Library) where
  -- webauthPublicKey.Marshal; `none` is the panic on a nil coordinate or on a point off the curve.
  unfoldable pub marshal : PublicKey → Option Bytes
  marshal k = do
    x ← k.x
    y ← k.y
    point ← lib.elliptic_marshal x y
    some (
        lib.ssh_marshal
          (text key_type ∷ text (codes "nistp256") ∷ text point ∷ text k.application ∷ []))

  -- The fields that follow the signature: Extensions is never set.
  abbrev pub extra : Credential → List Field
  extra c = byte c.flags ∷ uint32 c.counter ∷ text c.origin ∷ text c.client_data ∷ text [] ∷ []

  abbrev with_numbers : Credential → Option (ℤ × ℤ) → Signed
  with_numbers c none = bad_signature
  with_numbers c (some (r, s)) = signs (record {
    format = key_type;
    blob = lib.ssh_marshal (mpint r ∷ mpint s ∷ []);
    rest = lib.ssh_marshal (extra c);
  })

  abbrev with_credential : Option Credential → Signed
  with_credential none = not_parsed
  with_credential (some c) = with_numbers c (lib.asn1_signature c.signature)

  abbrev with_awaited : Awaited → Signed
  with_awaited (rejected e) = not_retrieved
  with_awaited (resolved []) = panics
  with_awaited (resolved (credential ∷ more)) = with_credential (lib.parse_credential credential)

  -- Sign; `retrieve` is what comes of retrievePublicKey, with each credential as the text of its JSON.
  unfoldable pub sign : (Bytes → Awaited) → Bytes → Signed
  sign retrieve data' = with_awaited (retrieve (lib.base64 data'))

  -- What parsePublicKey returns to the page.
  pub record Exported : Type 0 where
    pub ssh_key : Bytes
    pub host_name : Bytes
    pub x : Bytes
    pub y : Bytes
    pub id : Bytes

  abbrev export : Bytes → Credential → CoseKey → Option Exported
  export host_name c other_kind = none
  export host_name c (ec2 xs ys) = do
    blob ←
        marshal (ssh_public_key (format_nat (set_bytes xs)) (format_nat (set_bytes ys)) host_name)
    some (record {
      ssh_key = lib.marshal_authorized_key key_type blob;
      host_name = host_name;
      x = format_nat (set_bytes xs);
      y = format_nat (set_bytes ys);
      id = lib.base64 c.raw_id;
    })

  -- parsePublicKey on the JSON of a credential; `none` is a panic.
  unfoldable pub parse_public_key : Bytes → Bytes → Option Exported
  parse_public_key host_name json = do
    c ← lib.parse_credential json
    key ← lib.parse_cose c.credential_public_key
    export host_name c key
