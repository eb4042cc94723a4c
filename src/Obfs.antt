-- ===== src/Obfs.antt =====
-- proxy/obfs.go and web/obfs.go, whose connection type is the same text in both programs: the
-- obfuscation layer between the browser and the proxy. SHA-256, the AES-CTR key stream and X25519
-- are the library's, and parameters here.
pub mod Agree
pub mod Transport
pub mod Examples
use Prim.Native.Nat.{bit_xor}
use ssheasy.Base.{
  ℕ, ◌+◌, Bool, true, false, ◌||◌, not, List, [], ◌∷◌, ◌++◌, Option, none, some, if◌then◌else◌,
  ◌==◌, ltb, length, take, drop,
}
use ssheasy.Base.Text.{Bytes, codes, bytes_eq, to_lower, trim_space}

-- What the connection uses of package crypto. `key_stream key iv i` is byte number i of the AES-CTR
-- key stream, `public_key` the public key of a private one, and `shared_secret` NewPublicKey on the
-- peer's bytes and then ECDH, with `none` for an error of either.
pub record Crypto : Type 0 where
  pub sha256 : Bytes → Bytes
  pub key_stream : Bytes → Bytes → ℕ → ℕ
  pub public_key : Bytes → Bytes
  pub shared_secret : Bytes → Bytes → Option Bytes

-- A cipher.Stream with the number of bytes that it has processed.
pub record Stream : Type 0 where
  pub key : Bytes
  pub iv : Bytes
  pub offset : ℕ

-- The two key streams of a connection, once its handshake is over.
pub record Keys : Type 0 where
  pub r : Stream
  pub w : Stream

-- o.once with o.hsErr and the streams: not run yet, run with an error, run.
pub data Once : Type 0 where
  pending failed : Once
  ready : Keys → Once

-- obfConn, without the transport that it wraps.
pub record ObfConn : Type 0 where
  pub server : Bool
  pub psk : Bytes
  pub once : Once

-- What the outside gives one call: random bytes (`none` is an error of the source) and whether the
-- transport takes a write.
pub record Outside : Type 0 where
  pub seed : Option Bytes
  pub private_key : Option Bytes
  pub writable : Bool

-- newObfConn
abbrev pub new_obf_conn : Bool → Bytes → ObfConn
new_obf_conn server psk = record { server = server; psk = psk; once = pending }

abbrev pub obfs_seed_len : ℕ
obfs_seed_len = 16

-- obfsEnabled, from the value of OBFS_ENABLED
unfoldable pub obfs_enabled : Bytes → Bool
obfs_enabled v =
    let w = to_lower (trim_space v) in
    not (
      bytes_eq w (codes "false")
      || bytes_eq w (codes "0")
      || bytes_eq w (codes "no")
      || bytes_eq w (codes "off"))

-- io.ReadFull of `n` bytes; `none` if the transport ends before.
abbrev pub read_full : ℕ → Bytes → Option (Bytes × Bytes)
read_full n inp = if ltb (length inp) n then none else some (take n inp, drop n inp)

-- What a part of the handshake leaves: its secret, the bytes that it wrote, the input behind it.
pub record Secret : Type 0 where
  pub secret : Option Bytes
  pub out : Bytes
  pub rest : Bytes

-- The state after a step, the bytes that it wrote, and the input that it left.
pub record Progress : Type 0 where
  pub conn : ObfConn
  pub out : Bytes
  pub rest : Bytes

-- A Read or Write that succeeded; for a Read, `plain` are the bytes in the caller's buffer.
pub record Transfer : Type 0 where
  pub after : Progress
  pub plain : Bytes

module _ (x : Crypto) where
  -- XORKeyStream
  unfoldable pub xor_from : Bytes → Bytes → ℕ → Bytes → Bytes
  xor_from key iv i [] = []
  xor_from key iv i (b ∷ s) = bit_xor b (x.key_stream key iv i) ∷ xor_from key iv (i + 1) s

  abbrev pub advance : Stream → ℕ → Stream
  advance s n = record s { offset = s.offset + n }

  abbrev pub xor_key_stream : Stream → Bytes → Bytes
  xor_key_stream s p = xor_from s.key s.iv s.offset p

  -- The reading half of handshakePSK, on the server.
  abbrev with_seed : Bytes → Option (Bytes × Bytes) → Secret
  with_seed base none = record { secret = none; out = []; rest = [] }
  with_seed base (some (seed, rest)) = record {
    secret = some (base ++ seed);
    out = [];
    rest = rest;
  }

  -- The writing half, on the client.
  abbrev send_seed : Bytes → Bool → Bytes → Option Bytes → Secret
  send_seed base writable inp none = record { secret = none; out = []; rest = inp }
  send_seed base true inp (some seed) = record {
    secret = some (base ++ seed);
    out = seed;
    rest = inp;
  }
  send_seed base false inp (some seed) = record { secret = none; out = []; rest = inp }

  -- handshakePSK
  unfoldable pub handshake_psk : Outside → ObfConn → Bytes → Secret
  handshake_psk e o inp =
      let base = x.sha256 o.psk in
      if o.server
      then with_seed base (read_full obfs_seed_len inp)
      else send_seed base e.writable inp e.seed

  -- Behind the peer's key: the error of our own write comes before that of the key.
  abbrev agree_on : Bytes → Bytes → Bool → Option (Bytes × Bytes) → Secret
  agree_on private own writable none = record {
    secret = none;
    out = if writable then own else [];
    rest = [];
  }
  agree_on private own true (some (peer, rest)) = record {
    secret = x.shared_secret private peer;
    out = own;
    rest = rest;
  }
  agree_on private own false (some (peer, rest)) = record { secret = none; out = []; rest = rest }

  -- handshakeECDH: our key is written while the peer's is read.
  unfoldable pub handshake_ecdh : Outside → ObfConn → Bytes → Secret
  handshake_ecdh e o inp = elim e.private_key [
    | none ↦ record { secret = none; out = []; rest = inp }
    | some private ↦
        let own = x.public_key private in
        agree_on private own e.writable (read_full (length own) inp)
  ]

  -- aes.NewCipher takes keys of 16, 24 or 32 bytes.
  abbrev pub is_aes_key : Bytes → Bool
  is_aes_key k = length k == 16 || length k == 24 || length k == 32

  -- obfsStreams: up, then down
  unfoldable pub obfs_streams : Bytes → Option (Stream × Stream)
  obfs_streams keymat =
      let key = x.sha256 (keymat ++ codes "key") in
      let up = take 16 (x.sha256 (keymat ++ codes "up")) in
      let down = take 16 (x.sha256 (keymat ++ codes "down")) in
      if is_aes_key key
      then some
          (record { key = key; iv = up; offset = 0 }, record { key = key; iv = down; offset = 0 })
      else none

  abbrev pub assign : Bool → Option (Stream × Stream) → Once
  assign server none = failed
  assign true (some (up, down)) = ready (record { r = up; w = down })
  assign false (some (up, down)) = ready (record { r = down; w = up })

  abbrev pub derive : Bool → Option Bytes → Once
  derive server none = failed
  derive server (some secret) = assign server (obfs_streams (x.sha256 secret))

  unfoldable pub exchange : Outside → ObfConn → Bytes → Secret
  exchange e o inp = if bytes_eq o.psk [] then handshake_ecdh e o inp else handshake_psk e o inp

  -- doHandshake
  unfoldable pub do_handshake : Outside → ObfConn → Bytes → Progress
  do_handshake e o inp =
      let s = exchange e o inp in
      record { conn = record o { once = derive o.server s.secret }; out = s.out; rest = s.rest }

  -- handshake: o.once.Do
  unfoldable pub handshake : Outside → ObfConn → Bytes → Progress
  handshake e o inp = elim o.once [
    | pending ↦ do_handshake e o inp
    | failed ↦ record { conn = o; out = []; rest = inp }
    | ready k ↦ record { conn = o; out = []; rest = inp }
  ]

  abbrev read_ready : Progress → ℕ → Once → Option Transfer
  read_ready h n pending = none
  read_ready h n failed = none
  read_ready h n (ready k) =
      let p = take n h.rest in
      some (record {
        after = record {
          conn = record (h.conn) { once = ready (record k { r = advance k.r (length p) }) };
          out = h.out;
          rest = drop n h.rest;
        };
        plain = xor_key_stream k.r p;
      })

  -- Read, where the transport's Read delivers at most `n` bytes. `none` is an error.
  unfoldable pub read : Outside → ObfConn → Bytes → ℕ → Option Transfer
  read e o inp n = let h = handshake e o inp in read_ready h n h.conn.once

  abbrev write_ready : Progress → Bool → Bytes → Once → Option Transfer
  write_ready h writable p pending = none
  write_ready h writable p failed = none
  write_ready h false p (ready k) = none
  write_ready h true p (ready k) = some (record {
    after = record {
      conn = record (h.conn) { once = ready (record k { w = advance k.w (length p) }) };
      out = h.out ++ xor_key_stream k.w p;
      rest = h.rest;
    };
    plain = p;
  })

  -- Write of the whole of `p`. `none` is an error.
  unfoldable pub write : Outside → ObfConn → Bytes → Bytes → Option Transfer
  write e o inp p = let h = handshake e o inp in write_ready h e.writable p h.conn.once
