-- ===== src/Relay/Obfuscated.antt =====
-- conLegacy and handleWss with the obfuscation layer between them, as the two programs run unless they
-- are told otherwise: without a passphrase, with a key agreed on for each connection.
use ssheasy.Base.{
  ℕ, zero, suc, ◌+◌, ◌≤◌, true, false, ◌&&◌, ◌≡◌, refl, sym, ap, ◌∙◌, [], ◌∷◌, ◌++◌, some, length,
  take, append-nil, arith,
}
use ssheasy.Base.Int.{ℤ}
use ssheasy.Base.Text.{Bytes}
use ssheasy.Access.Sources.{Verdict}
use ssheasy.Access.Targets.{Targets, is_allowed_targer}
use ssheasy.Obfs.{Crypto, Outside, new_obf_conn, handshake}
use ssheasy.Obfs.Agree.{IsSoundCrypto}
use ssheasy.Obfs.Transport.{send_all, read_all, ecdh_transport}
use ssheasy.Relay.{World, buffer, target_address, handle_wss, Dial, con_legacy}
use ssheasy.Relay.Laws.{answer, relays}
use ssheasy.Relay.Link.{response_status, con_legacy-handle_wss}

some_injective : {A : Type 0} {x y : A} → some x ≡ some y → x ≡ y
some_injective h = cc

take_whole : (n : ℕ) (s : Bytes) → length s ≤ n → take n s ≡ s
take_whole zero [] l = refl
take_whole zero (c ∷ s) l = absurd (omega arith)
take_whole (suc n) [] l = refl
take_whole (suc n) (c ∷ s) l = ap (λ t. c ∷ t) (take_whole n s (omega arith))

-- The two ends make keys that agree on `secret`, and their writes are taken.
pub record IsAgreed (x : Crypto) (e f : Outside) (a b secret : Bytes) : Type 0 where
  pub client_key : e.private_key ≡ some a
  pub client_writes : e.writable ≡ true
  pub server_key : f.private_key ≡ some b
  pub server_writes : f.writable ≡ true
  pub agreed : x.shared_secret a (x.public_key b) ≡ some secret

module _ (x : Crypto) (sound : IsSoundCrypto x) (e f : Outside) (a b secret : Bytes)
    (agreed : IsAgreed x e f a b secret) where
  -- What the server reads of one write, with a buffer that holds it.
  read_whole :
      (request wire : Bytes)
      → length request ≤ 2048
      → let client = handshake x e (new_obf_conn false []) (x.public_key b ++ []) in
        let server = handshake x f (new_obf_conn true []) (x.public_key a ++ []) in
        send_all x e client.conn (request ∷ []) ≡ some wire
        → read_all x f server.conn wire (2048 ∷ []) ≡ some request
  read_whole request wire l sent =
      let (_, _, (up, sent', got), _) =
        ecdh_transport x sound a b secret [] [] (request ∷ []) [] (2048 ∷ []) [] e f
          agreed.client_key agreed.client_writes agreed.server_key agreed.server_writes
          agreed.agreed in
      let same : up ≡ wire = some_injective (sym sent' ∙ sent) in
      let whole : take (2048 + 0) (request ++ []) ≡ request =
        ap (λ t. take (2048 + 0) t) (append-nil request) ∙ take_whole (2048 + 0) request l in
      ap
        (λ t.
          read_all x f (handshake x f (new_obf_conn true []) (x.public_key a ++ [])).conn t
            (2048 ∷ []))
        (sym same)
      ∙ got
      ∙ ap some whole

  -- conLegacy and handleWss over the obfuscation layer: the client writes the request through its end,
  -- and the server's first Read, of at most 2048 bytes, takes what its end makes of the wire. If the
  -- websocket opens, the request is no longer than the buffer, the proxy lets the client in and decodes
  -- what was encoded, and the client gets the proxy's status, then the client has a connection exactly if
  -- the target is allowed and takes it, and exactly if the proxy relays.
  pub con_legacy-obfuscated {κ} :
      {L : Type κ} (w : World) (v : Verdict L) (t : Targets) (d : Dial) (request wire host : Bytes)
      (port : ℤ)
      → length request ≤ 2048
      → let client = handshake x e (new_obf_conn false []) (x.public_key b ++ []) in
        let server = handshake x f (new_obf_conn true []) (x.public_key a ++ []) in
        send_all x e client.conn (request ∷ []) ≡ some wire
        → w.received ≡ read_all x f server.conn wire (2048 ∷ [])
        → v.blocked ≡ false
        → w.deadline_set ≡ true
        → w.decode (buffer 2048 request) ≡ some (host, port)
        → w.deadline_reset ≡ true
        → d.opens ≡ true
        → d.encoded ≡ some request
        → d.response ≡ response_status (answer (handle_wss w v t).0)
        → (con_legacy d ≡ ((is_allowed_targer host t).0 && w.connects (target_address host port)))
          × (con_legacy d ≡ relays (handle_wss w v t).0)
  con_legacy-obfuscated w v t d request wire host port l sent arrived free set decoded reset o c r =
      con_legacy-handle_wss w v t d request host port
        (record {
          free = free;
          set = set;
          read = arrived ∙ read_whole request wire l sent;
          decoded = decoded;
          reset = reset;
        })
        o c r
