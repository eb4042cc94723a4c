-- ===== src/Obfs/Examples.antt =====
-- The theorems about obfs.go at concrete inputs: a toy digest of 32 bytes, a toy key stream, and a
-- key agreement by adding the private keys.
use ssheasy.Base.{ℕ, ◌+◌, true, false, ◌≡◌, refl, ap, ◌≢◌, [], ◌∷◌, ◌++◌, none, some, arith, take}
use ssheasy.Base.Text.{Bytes, codes}
use ssheasy.Obfs.{Crypto, Outside, handshake, new_obf_conn}
use ssheasy.Obfs.Agree.{IsSoundCrypto}
use ssheasy.Obfs.Transport.{ecdh_transport, psk_transport, send_all, read_all}

abbrev total_of : Bytes → ℕ
total_of [] = 0
total_of (c ∷ s) = c + total_of s

-- 32 bytes, all `n`.
abbrev padded : ℕ → Bytes
padded n =
    n ∷ n ∷ n ∷ n ∷ n ∷ n ∷ n ∷ n ∷ n ∷ n ∷ n ∷ n ∷ n ∷ n ∷ n ∷ n ∷ n ∷ n ∷ n ∷ n ∷ n ∷ n ∷ n ∷ n
    ∷ n ∷ n ∷ n ∷ n ∷ n ∷ n ∷ n ∷ n ∷ []

abbrev first : Bytes → ℕ
first [] = 0
first (c ∷ s) = c

abbrev pub toy : Crypto
toy = record {
  sha256 = λ s. padded (total_of s);
  key_stream = λ key iv i. first key + first iv + i;
  public_key = λ a. padded (total_of a);
  shared_secret = λ a p. some ((total_of a + first p) ∷ []);
}

pub toy-IsSoundCrypto : IsSoundCrypto toy
toy-IsSoundCrypto = record {
  agrees = λ a b. ap (λ n. some (n ∷ [])) (omega arith);
  key_length = λ a. refl;
  sum_length = λ a. refl;
}

abbrev end : Outside
end = record { seed = some (take 16 (padded 9)); private_key = some (5 ∷ []); writable = true }

abbrev other_end : Outside
other_end = record { seed = none; private_key = some (8 ∷ []); writable = true }

abbrev passphrase : Bytes
passphrase = codes "hunter2"

passphrase_given : passphrase ≢ []
passphrase_given e = ground arith

psk_transport_example :
    (wire : Bytes) × (send_all toy end
        (new_obf_conn false passphrase)
        (codes "GET /" ∷ codes " HTTP" ∷ [])
      ≡ some wire)
    × (read_all toy other_end (new_obf_conn true passphrase) wire (3 ∷ 4 ∷ [])
        ≡ some (take 7 (codes "GET / HTTP")))
psk_transport_example =
    psk_transport toy toy-IsSoundCrypto passphrase (take 16 (padded 9)) (codes "GET /")
      (codes " HTTP" ∷ []) 3 (4 ∷ []) end other_end passphrase_given refl refl refl

ecdh_transport_example :
    let client = handshake toy end (new_obf_conn false []) (padded 8 ++ codes "down") in
    let server = handshake toy other_end (new_obf_conn true []) (padded 5 ++ codes "up") in
    (client.out ≡ padded 5)
    × (server.out ≡ padded 8)
    × ((up : Bytes) × (send_all toy end client.conn (codes "SSH" ∷ codes "-2.0" ∷ []) ≡ some up)
        × (read_all toy other_end server.conn up (4 ∷ []) ≡ some (codes "SSH-")))
    × ((down : Bytes) × (send_all toy other_end server.conn (codes "banner" ∷ []) ≡ some down)
        × (read_all toy end client.conn down (2 ∷ 9 ∷ []) ≡ some (codes "banner")))
ecdh_transport_example =
    ecdh_transport toy toy-IsSoundCrypto (5 ∷ []) (8 ∷ []) (13 ∷ []) (codes "down") (codes "up")
      (codes "SSH" ∷ codes "-2.0" ∷ []) (codes "banner" ∷ []) (4 ∷ []) (2 ∷ 9 ∷ []) end other_end
      refl refl refl refl refl
