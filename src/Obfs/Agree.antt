-- ===== src/Obfs/Agree.antt =====
-- The two ends of a connection derive the same key streams, crosswise.
use ssheasy.Base.{
  ℕ, Bool, true, false, ◌≡◌, refl, ◌≢◌, [], ◌++◌, some, arith, length, length-append, take,
  take-length-append, drop-length-append, if◌then◌else◌,
}
use ssheasy.Base.Text.{Bytes, codes, bytes_eq_iff}
use ssheasy.Obfs.{
  Crypto, Stream, Keys, Once, ready, Outside, new_obf_conn, read_full, handshake_psk,
  handshake_ecdh, obfs_streams, derive, exchange, do_handshake, handshake,
}

-- Each end reads with the stream that the other writes with, at the same place.
abbrev pub Mirror : Once → Once → Type 0
Mirror (ready a) (ready b) = (a.w ≡ b.r) × (a.r ≡ b.w)
Mirror _ _ = ⊥

-- What the library promises: X25519 agrees, and SHA-256 has 32 bytes.
pub record IsSoundCrypto (x : Crypto) : Type 0 where
  pub agrees :
      (a b : Bytes) → x.shared_secret a (x.public_key b) ≡ x.shared_secret b (x.public_key a)
  pub key_length : (a : Bytes) → length (x.public_key a) ≡ 32
  pub sum_length : (a : Bytes) → length (x.sha256 a) ≡ 32

read_full-append : (s t : Bytes) (n : ℕ) → length s ≡ n → read_full n (s ++ t) ≡ some (s, t)
read_full-append s t n e =
    rw (← e) (ground (arith, length-append s t, take-length-append s t, drop-length-append s t))

module _ (x : Crypto) (sound : IsSoundCrypto x) where
  -- The streams that an end derives from the secret.
  pub keys_for : Bool → Bytes → Keys
  keys_for server secret =
      let keymat = x.sha256 secret in
      let key = x.sha256 (keymat ++ codes "key") in
      let up : Stream = record {
        key = key;
        iv = take 16 (x.sha256 (keymat ++ codes "up"));
        offset = 0;
      } in
      let down : Stream = record {
        key = key;
        iv = take 16 (x.sha256 (keymat ++ codes "down"));
        offset = 0;
      } in
      if server then record { r = up; w = down } else record { r = down; w = up }

  pub derive-keys_for :
      (server : Bool) (s : Bytes) → derive x server (some s) ≡ ready (keys_for server s)
  unfolding obfs_streams keys_for
  derive-keys_for true s = ground (arith, sound.sum_length (x.sha256 s ++ codes "key"))
  derive-keys_for false s = ground (arith, sound.sum_length (x.sha256 s ++ codes "key"))

  pub keys_for_mirror :
      (s : Bytes)
      → ((keys_for false s).w ≡ (keys_for true s).r) × ((keys_for false s).r ≡ (keys_for true s).w)
  unfolding keys_for
  keys_for_mirror s = (refl, refl)

  derive-Mirror : (s : Bytes) → Mirror (derive x false (some s)) (derive x true (some s))
  derive-Mirror s = rw (derive-keys_for false s, derive-keys_for true s) (keys_for_mirror s)

  psk-client :
      (psk seed inp : Bytes) (e : Outside)
      → psk ≢ []
      → e.seed ≡ some seed
      → e.writable ≡ true
      → exchange x e (new_obf_conn false psk) inp
        ≡ record { secret = some (x.sha256 psk ++ seed); out = seed; rest = inp }
  unfolding exchange handshake_psk
  psk-client psk seed inp e ne es w = ground (arith, bytes_eq_iff psk [])

  psk-server :
      (psk seed later : Bytes) (f : Outside)
      → psk ≢ []
      → length seed ≡ 16
      → exchange x f (new_obf_conn true psk) (seed ++ later)
        ≡ record { secret = some (x.sha256 psk ++ seed); out = []; rest = later }
  unfolding exchange handshake_psk
  psk-server psk seed later f ne l =
      ground (arith, bytes_eq_iff psk [], read_full-append seed later 16 l)

  pub psk-client_handshake :
      (psk seed : Bytes) (e : Outside)
      → psk ≢ []
      → e.seed ≡ some seed
      → e.writable ≡ true
      → handshake x e (new_obf_conn false psk) [] ≡ record {
        conn = record {
          server = false;
          psk = psk;
          once = ready (keys_for false (x.sha256 psk ++ seed));
        };
        out = seed;
        rest = [];
      }
  unfolding handshake do_handshake
  psk-client_handshake psk seed e ne es w =
      rw (psk-client psk seed [] e ne es w, derive-keys_for false (x.sha256 psk ++ seed))

  pub psk-server_handshake :
      (psk seed later : Bytes) (f : Outside)
      → psk ≢ []
      → length seed ≡ 16
      → handshake x f (new_obf_conn true psk) (seed ++ later) ≡ record {
        conn = record {
          server = true;
          psk = psk;
          once = ready (keys_for true (x.sha256 psk ++ seed));
        };
        out = [];
        rest = later;
      }
  unfolding handshake do_handshake
  psk-server_handshake psk seed later f ne l =
      rw (psk-server psk seed later f ne l, derive-keys_for true (x.sha256 psk ++ seed))

  -- With one passphrase at both ends, a seed of 16 bytes and a transport that takes it, the client's
  -- handshake sends the seed, and the server's, which reads it in front of whatever follows, arrives at
  -- the mirrored streams.
  handshake-psk :
      (psk seed later : Bytes) (e f : Outside)
      → psk ≢ []
      → e.seed ≡ some seed
      → length seed ≡ 16
      → e.writable ≡ true
      → let client = handshake x e (new_obf_conn false psk) [] in
        let server = handshake x f (new_obf_conn true psk) (client.out ++ later) in
        (client.out ≡ seed) × (server.rest ≡ later) × Mirror client.conn.once server.conn.once
  unfolding handshake do_handshake
  handshake-psk psk seed later e f ne es l w =
      rw (psk-client psk seed [] e ne es w, psk-server psk seed later f ne l)
        (refl, refl, derive-Mirror (x.sha256 psk ++ seed))

  ecdh-exchange :
      (server : Bool) (a peer later : Bytes) (e : Outside)
      → e.private_key ≡ some a
      → e.writable ≡ true
      → length peer ≡ 32
      → exchange x e (new_obf_conn server []) (peer ++ later)
        ≡ record { secret = x.shared_secret a peer; out = x.public_key a; rest = later }
  unfolding exchange handshake_ecdh
  ecdh-exchange server a peer later e ea w l =
      ground (arith, bytes_eq_iff [] [], sound.key_length a, read_full-append peer later 32 l)

  -- Without a passphrase, if both ends make a private key, their writes are taken and the keys agree on
  -- a secret, the two public keys cross on the wire, each end leaves what follows the other's key, and
  -- the ends arrive at the mirrored streams.
  handshake-ecdh :
      (a b secret to_client to_server : Bytes) (e f : Outside)
      → e.private_key ≡ some a
      → e.writable ≡ true
      → f.private_key ≡ some b
      → f.writable ≡ true
      → x.shared_secret a (x.public_key b) ≡ some secret
      → let client = handshake x e (new_obf_conn false []) (x.public_key b ++ to_client) in
        let server = handshake x f (new_obf_conn true []) (x.public_key a ++ to_server) in
        (client.out ≡ x.public_key a)
        × (server.out ≡ x.public_key b)
        × (client.rest ≡ to_client)
        × (server.rest ≡ to_server)
        × Mirror client.conn.once server.conn.once
  unfolding handshake do_handshake
  handshake-ecdh a b secret to_client to_server e f ea we fb wf es =
      rw
        (
          ecdh-exchange false a (x.public_key b) to_client e ea we (sound.key_length b),
          ecdh-exchange true b (x.public_key a) to_server f fb wf (sound.key_length a),
          ← sound.agrees a b,
          es,
        )
        (refl, refl, refl, refl, derive-Mirror secret)

  pub ecdh_handshake :
      (server : Bool) (a peer secret later : Bytes) (e : Outside)
      → e.private_key ≡ some a
      → e.writable ≡ true
      → length peer ≡ 32
      → x.shared_secret a peer ≡ some secret
      → handshake x e (new_obf_conn server []) (peer ++ later) ≡ record {
        conn = record { server = server; psk = []; once = ready (keys_for server secret) };
        out = x.public_key a;
        rest = later;
      }
  unfolding handshake do_handshake
  ecdh_handshake server a peer secret later e ea w l es =
      rw (ecdh-exchange server a peer later e ea w l, es, derive-keys_for server secret) refl
