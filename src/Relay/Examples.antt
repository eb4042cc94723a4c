-- ===== src/Relay/Examples.antt =====
-- The theorems about handleWss at concrete inputs: a request for port 22 of a host, from a client that
-- is let in.
use ssheasy.Base.{
  Option, ◌&&◌, ℕ, true, false, ◌≡◌, refl, [], ◌∷◌, none, some, take, length, ◌+◌, ◌≤◌, ◌++◌, arith,
}
use ssheasy.Base.Int.{pos}
use ssheasy.Base.Text.{Bytes, codes, bytes_eq}
use ssheasy.Access.Sources.{Verdict}
use ssheasy.Access.Targets.{initial, is_allowed_targer, is_target}
use ssheasy.Relay.{World, buffer, handle_wss}
use ssheasy.Relay.Copies.{
  Side, copying, closing, telling, told, receive, with_phase, moves, read_ends, read_fails, closes,
  up, down, conn_stat, Copies, up_copies, down_copies, up_tells, down_tells, started, Runs, stays,
  then_step, copied, audit_message, chunk_len,
}
use ssheasy.Relay.Copies.Laws.{Runs-copied, Runs-bounded}
use ssheasy.Traffic.Laws.{waited}
use ssheasy.Relay.{Dial, con_legacy, serve}
use ssheasy.Relay.Obfuscated.{con_legacy-obfuscated}
use ssheasy.Obfs.Examples.{toy, toy-IsSoundCrypto}
use ssheasy.Obfs.Transport.{send_all, read_all}
use ssheasy.Obfs.{
  Outside, new_obf_conn, handshake, write, do_handshake, exchange, handshake_ecdh, obfs_streams,
  read, xor_from,
}
use ssheasy.Relay.Laws.{relays}

abbrev world : World
world = record {
  deadline_set = true;
  received = some (codes "git");
  decode = λ s. some (take 3 s, pos 22);
  deadline_reset = true;
  connects = λ address. true;
}

abbrev admitted : Verdict ℕ
admitted = record {
  blocked = false;
  ips = codes "10.0.0.7" ∷ [];
  sources = record { blacklisted_sources = []; source_rates = λ k. none };
}

abbrev dialling : Dial
dialling = record { opens = true; encoded = some (codes "git"); response = some (codes "ok") }

-- The wire is that of the toy cryptography.
abbrev near : Outside
near = record { seed = none; private_key = some (5 ∷ []); writable = true }

abbrev far : Outside
far = record { seed = none; private_key = some (8 ∷ []); writable = true }

abbrev or_empty : Option Bytes → Bytes
or_empty none = []
or_empty (some s) = s

abbrev wire : Bytes
wire = or_empty (
    send_all toy near
      (handshake toy near (new_obf_conn false []) (toy.public_key (8 ∷ []) ++ [])).conn
      (codes "git" ∷ []))

con_legacy-obfuscated_example :
    (con_legacy dialling ≡ ((is_allowed_targer (codes "git") initial).0 && true))
    × (con_legacy dialling ≡ relays (handle_wss world admitted initial).0)
unfolding handle_wss serve buffer is_allowed_targer is_target bytes_eq send_all write handshake
    do_handshake exchange handshake_ecdh obfs_streams read_all read xor_from
con_legacy-obfuscated_example =
    con_legacy-obfuscated toy toy-IsSoundCrypto near far (5 ∷ []) (8 ∷ []) (13 ∷ [])
      (record {
        client_key = refl;
        client_writes = refl;
        server_key = refl;
        server_writes = refl;
        agreed = refl;
      })
      world admitted initial dialling (codes "git") wire (codes "git") (pos 22) (omega arith) refl
      refl refl refl refl refl refl refl refl

-- The browser sends two bytes and goes; then the target's connection, which is closed, ends the other
-- copy.
abbrev closed_error : Bytes
closed_error = codes "use of closed network connection"

abbrev typed_side : Side
typed_side = receive (pos 1) (codes "ls") 2 copying started.up_side

abbrev after_bytes : Copies
after_bytes = record started { up_side = typed_side }

abbrev after_eof : Copies
after_eof = record started { up_side = with_phase (closing none) typed_side }

abbrev after_close : Copies
after_close = record started { up_side = with_phase (telling none) typed_side }

abbrev after_up : Copies
after_up = record started {
  up_side = with_phase (told none) typed_side;
  stats = [] ++ conn_stat up none typed_side ∷ [];
}

abbrev after_error : Copies
after_error = record after_up {
  down_side = with_phase (closing (some closed_error)) after_up.down_side;
}

abbrev after_both : Copies
after_both = record after_up {
  down_side = with_phase (telling (some closed_error)) after_up.down_side;
}

abbrev after_down : Copies
after_down = record after_up {
  down_side = with_phase (told (some closed_error)) after_up.down_side;
  stats = after_up.stats ++ conn_stat down (some closed_error) after_up.down_side ∷ [];
}

abbrev bytes_run : Runs (pos 1) 1 started after_bytes
bytes_run =
    then_step 0 started started after_bytes (stays started)
      (up_copies started typed_side (moves started.up_side (codes "ls") refl refl (omega arith)))

abbrev close_run : Runs (pos 1) 3 started after_close
close_run =
    then_step 2 started after_eof after_close
      (then_step 1 started after_bytes after_eof bytes_run
        (up_copies after_bytes after_eof.up_side (read_ends typed_side refl refl)))
      (up_copies after_eof after_close.up_side (closes after_eof.up_side none refl))

abbrev whole_run : Runs (pos 1) 7 started after_down
whole_run =
    then_step 6 started after_both after_down
      (then_step 5 started after_error after_both
        (then_step 4 started after_up after_error
          (then_step 3 started after_close after_up close_run (up_tells after_close none refl))
          (down_copies after_up after_error.down_side
            (read_fails after_up.down_side closed_error refl)))
        (down_copies after_error after_both.down_side
          (closes after_error.down_side (some closed_error) refl)))
      (down_tells after_both (some closed_error) refl)

Runs-copied_example :
    audit_message after_down.stats
    ≡ some (
        copied
          (conn_stat up none after_down.up_side)
          (conn_stat down (some closed_error) after_down.down_side))
Runs-copied_example = Runs-copied (pos 1) 7 after_down none (some closed_error) whole_run refl refl

Runs-bounded_example :
    (length after_close.up_side.delivered ≤ 1 + chunk_len + waited after_close.up_side.steps)
    × (length after_close.down_side.delivered ≤ 1 + chunk_len + waited after_close.down_side.steps)
Runs-bounded_example = Runs-bounded 1 3 after_close close_run
