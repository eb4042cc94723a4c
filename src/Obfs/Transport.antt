-- ===== src/Obfs/Transport.antt =====
-- Once the handshake is over, what one end writes is what the other end reads, however the bytes are
-- cut into writes and reads.
use Prim.Native.Nat.{bit_xor}
use mathlib.Core.Option
use ssheasy.Base.{
  ℕ, zero, suc, ◌+◌, Bool, true, false, ◌≡◌, refl, ap, ◌≢◌, ◌∙◌, sym, List, [], ◌∷◌, ◌++◌, Option,
  none, some, arith, length, take, drop, append_assoc,
}
use ssheasy.Base.Xor.{xor_twice}
use ssheasy.Base.Text.{Bytes}
use ssheasy.Obfs.{
  Crypto, Keys, ready, ObfConn, Outside, handshake, new_obf_conn, read, write, Transfer, xor_from,
  xor_key_stream, advance,
}
use ssheasy.Obfs.Agree.{
  IsSoundCrypto, ecdh_handshake, keys_for, keys_for_mirror, psk-client_handshake,
  psk-server_handshake,
}

-- All chunks as one text, and the sum of the sizes.
abbrev pub joined : List Bytes → Bytes
joined [] = []
joined (p ∷ ps) = p ++ joined ps

abbrev pub total : List ℕ → ℕ
total [] = 0
total (n ∷ ns) = n + total ns

take-nil : (n : ℕ) → take {A = ℕ} n [] ≡ []
take-nil zero = refl
take-nil (suc n) = refl

take-take : (m n : ℕ) (s : Bytes) → take m s ++ take n (drop m s) ≡ take (m + n) s
take-take zero n s = ap (λ k. take k s) (omega arith)
take-take (suc m) n [] = rw (take-nil n, take-nil (suc m + n))
take-take (suc m) n (c ∷ s) =
    let e : suc m + n ≡ suc (m + n) = omega arith in rw e (ap (λ t. c ∷ t) (take-take m n s))

module _ (x : Crypto) where
  -- The wire behind a sequence of writes; `none` if one of them fails.
  abbrev then_send : Option Transfer → (ObfConn → Option Bytes) → Option Bytes
  then_send none k = none
  then_send (some t) k = Option.map (λ w. t.after.out ++ w) (k t.after.conn)

  unfoldable pub send_all : Outside → ObfConn → List Bytes → Option Bytes
  send_all e o [] = some []
  send_all e o (p ∷ ps) = then_send (write x e o [] p) (λ o'. send_all e o' ps)

  -- The plain text of a sequence of reads, each of at most the given size.
  abbrev then_read : Option Transfer → (ObfConn → Bytes → Option Bytes) → Option Bytes
  then_read none k = none
  then_read (some t) k = Option.map (λ w. t.plain ++ w) (k t.after.conn t.after.rest)

  unfoldable pub read_all : Outside → ObfConn → Bytes → List ℕ → Option Bytes
  read_all e o wire [] = some []
  read_all e o wire (n ∷ ns) = then_read (read x e o wire n) (λ o' rest. read_all e o' rest ns)

  xor-append :
      (key iv : Bytes) (i : ℕ) (s t : Bytes)
      → xor_from x key iv i (s ++ t) ≡ xor_from x key iv i s ++ xor_from x key iv (i + length s) t
  unfolding xor_from
  xor-append key iv i [] t = ap (λ j. xor_from x key iv j t) (omega arith)
  xor-append key iv i (b ∷ s) t = ground (arith, xor-append key iv (i + 1) s t)

  length-xor : (key iv : Bytes) (i : ℕ) (s : Bytes) → length (xor_from x key iv i s) ≡ length s
  unfolding xor_from
  length-xor key iv i [] = refl
  length-xor key iv i (b ∷ s) = ap suc (length-xor key iv (i + 1) s)

  take-xor :
      (key iv : Bytes) (i n : ℕ) (s : Bytes)
      → take n (xor_from x key iv i s) ≡ xor_from x key iv i (take n s)
  unfolding xor_from
  take-xor key iv i zero s = refl
  take-xor key iv i (suc n) [] = refl
  take-xor key iv i (suc n) (b ∷ s) =
      ap (λ t. bit_xor b (x.key_stream key iv i) ∷ t) (take-xor key iv (i + 1) n s)

  xor-twice : (key iv : Bytes) (i : ℕ) (s : Bytes) → xor_from x key iv i (xor_from x key iv i s) ≡ s
  unfolding xor_from
  xor-twice key iv i [] = refl
  xor-twice key iv i (b ∷ s) =
      ground (arith, xor_twice b (x.key_stream key iv i), xor-twice key iv (i + 1) s)

  abbrev conn : Bool → Bytes → Keys → ObfConn
  conn server psk k = record { server = server; psk = psk; once = ready k }

  send_all-ready :
      (e : Outside) (server : Bool) (psk : Bytes) (k : Keys) (ps : List Bytes)
      → e.writable ≡ true
      → send_all e (conn server psk k) ps ≡ some (xor_key_stream x k.w (joined ps))
  unfolding send_all write handshake
  send_all-ready e server psk k [] w = unfold xor_from in refl
  send_all-ready e server psk k (p ∷ ps) w =
      rw (w, write)
        (rw (send_all-ready e server psk (record k { w = advance x k.w (length p) }) ps w)
          (ap some (sym (xor-append k.w.key k.w.iv k.w.offset p (joined ps)))))

  read_all-ready :
      (e : Outside) (server : Bool) (psk : Bytes) (k : Keys) (wire : Bytes) (ns : List ℕ)
      → read_all e (conn server psk k) wire ns ≡ some (xor_key_stream x k.r (take (total ns) wire))
  unfolding read_all read handshake
  read_all-ready e server psk k wire [] = unfold xor_from in refl
  read_all-ready e server psk k wire (n ∷ ns) =
      rw
        (read_all-ready e server psk (record k { r = advance x k.r (length (take n wire)) })
          (drop n wire) ns)
        (ap some (
          sym (xor-append k.r.key k.r.iv k.r.offset (take n wire) (take (total ns) (drop n wire)))
          ∙ ap (xor_key_stream x k.r) (take-take n (total ns) wire)))

  -- Two ready ends: the writes succeed, and the reads get the text back, as far as they go.
  ready_transport :
      (e f : Outside) (sa sb : Bool) (p q : Bytes) (k l : Keys) (ps : List Bytes) (ns : List ℕ)
      → k.w ≡ l.r
      → e.writable ≡ true
      → (wire : Bytes) × (send_all e (conn sa p k) ps ≡ some wire)
        × (read_all f (conn sb q l) wire ns ≡ some (take (total ns) (joined ps)))
  ready_transport e f sa sb p q k l ps ns m w = (
    xor_key_stream x k.w (joined ps),
    send_all-ready e sa p k ps w,
    read_all-ready f sb q l (xor_key_stream x k.w (joined ps)) ns
        ∙ rw (m, take-xor l.r.key l.r.iv l.r.offset (total ns) (joined ps))
            (ap some (xor-twice l.r.key l.r.iv l.r.offset (take (total ns) (joined ps)))),
  )

  ready-handshake :
      (e : Outside) (server : Bool) (psk : Bytes) (k : Keys) (inp : Bytes)
      → handshake x e (conn server psk k) inp
        ≡ record { conn = conn server psk k; out = []; rest = inp }
  unfolding handshake
  ready-handshake e server psk k inp = refl

  prefixed :
      (u v : Bytes) (o : Option Bytes)
      → Option.map (λ w. (u ++ v) ++ w) o ≡ Option.map (λ w. u ++ w) (Option.map (λ w. v ++ w) o)
  prefixed u v none = refl
  prefixed u v (some w) = ap some (append_assoc u v w)

  -- The first write of a connection runs the handshake, and sends its bytes first.
  send_all-start :
      (e : Outside) (o : ObfConn) (server : Bool) (psk : Bytes) (k : Keys) (out p : Bytes)
      (ps : List Bytes)
      → handshake x e o [] ≡ record { conn = conn server psk k; out = out; rest = [] }
      → e.writable ≡ true
      → send_all e o (p ∷ ps) ≡ Option.map (λ w. out ++ w) (send_all e (conn server psk k) (p ∷ ps))
  unfolding send_all write
  send_all-start e o server psk k out p ps h w =
      rw (h, ready-handshake e server psk k [], w) (prefixed out (xor_key_stream x k.w p) _)

  read_all-start :
      (e : Outside) (o : ObfConn) (server : Bool) (psk : Bytes) (k : Keys) (inp out rest : Bytes)
      (n : ℕ) (ns : List ℕ)
      → handshake x e o inp ≡ record { conn = conn server psk k; out = out; rest = rest }
      → read_all e o inp (n ∷ ns) ≡ read_all e (conn server psk k) rest (n ∷ ns)
  unfolding read_all read
  read_all-start e o server psk k inp out rest n ns h = rw (h, ready-handshake e server psk k rest)

  module _ (sound : IsSoundCrypto x) where
    -- With a passphrase, from two fresh ends, with a seed of 16 bytes and a transport that takes every
    -- write: all writes of the client succeed, and the server, which runs its handshake on the same
    -- bytes, reads the client's text, as far as its reads go.
    pub psk_transport :
        (psk seed p : Bytes) (ps : List Bytes) (n : ℕ) (ns : List ℕ) (e f : Outside)
        → psk ≢ []
        → e.seed ≡ some seed
        → length seed ≡ 16
        → e.writable ≡ true
        → (wire : Bytes) × (send_all e (new_obf_conn false psk) (p ∷ ps) ≡ some wire)
          × (read_all f (new_obf_conn true psk) wire (n ∷ ns)
              ≡ some (take (n + total ns) (p ++ joined ps)))
    psk_transport psk seed p ps n ns e f ne es l w =
        let k = keys_for x sound false (x.sha256 psk ++ seed) in
        let m = keys_for x sound true (x.sha256 psk ++ seed) in
        let (body, sent, got) =
          ready_transport e f false true psk psk k m (p ∷ ps) (n ∷ ns)
            (keys_for_mirror x sound (x.sha256 psk ++ seed)).0 w in
        (
          seed ++ body,
          send_all-start e _ false psk k seed p ps (psk-client_handshake x sound psk seed e ne es w)
                w
              ∙ ap (Option.map (λ t. seed ++ t)) sent,
          read_all-start f _ true psk m (seed ++ body) [] body n ns
                (psk-server_handshake x sound psk seed body f ne l)
              ∙ got,
        )

    -- Without a passphrase: two fresh ends that make a private key each and whose writes are taken,
    -- with keys that agree on a secret. Each sends its public key, which the other reads in front of
    -- whatever follows; then all writes of either end succeed, and the other end reads that end's text,
    -- as far as its reads go.
    pub ecdh_transport :
        (a b secret to_client to_server : Bytes) (ps qs : List Bytes) (ns ms : List ℕ)
        (e f : Outside)
        → e.private_key ≡ some a
        → e.writable ≡ true
        → f.private_key ≡ some b
        → f.writable ≡ true
        → x.shared_secret a (x.public_key b) ≡ some secret
        → let client = handshake x e (new_obf_conn false []) (x.public_key b ++ to_client) in
          let server = handshake x f (new_obf_conn true []) (x.public_key a ++ to_server) in
          (client.out ≡ x.public_key a)
          × (server.out ≡ x.public_key b)
          × ((up : Bytes) × (send_all e client.conn ps ≡ some up)
              × (read_all f server.conn up ns ≡ some (take (total ns) (joined ps))))
          × ((down : Bytes) × (send_all f server.conn qs ≡ some down)
              × (read_all e client.conn down ms ≡ some (take (total ms) (joined qs))))
    ecdh_transport a b secret to_client to_server ps qs ns ms e f ea we fb wf es =
        let k = keys_for x sound false secret in
        let m = keys_for x sound true secret in
        let mirror = keys_for_mirror x sound secret in
        rw
          (
            ecdh_handshake x sound false a (x.public_key b) secret to_client e ea we
                (sound.key_length b) es,
            ecdh_handshake x sound true b (x.public_key a) secret to_server f fb wf
                (sound.key_length a) (sym (sound.agrees a b) ∙ es),
          )
          (
            refl,
            refl,
            ready_transport e f false true [] [] k m ps ns mirror.0 we,
            ready_transport f e true false [] [] m k qs ms (sym mirror.1) wf,
          )
