-- ===== src/Service/Audit.antt =====
-- What an entry of the audit log tells.
use ssheasy.Base.{◌≡◌, ap, sym, ◌∙◌, ◌∷◌, ◌++◌, some, append_assoc}
use ssheasy.Base.Int.{ℤ}
use ssheasy.Base.Text.{Bytes}
use ssheasy.Base.Decimal.{format_int}
use ssheasy.Service.{audit_line, write_audit_log}

-- A host that ends one line and begins the next one.
abbrev pub forged_host : Bytes → ℤ → Bytes → Bytes → Bytes → Bytes → Bytes
forged_host host port msg later src other =
    host
    ++ b',' ∷ (format_int port ++ b',' ∷ (msg ++ b'\n' ∷ (later ++ b',' ∷ (src ++ b',' ∷ other))))

audit_line-forged :
    (now src host msg later other_src other other_msg : Bytes) (port other_port : ℤ)
    → audit_line now src (forged_host host port msg later other_src other) other_port other_msg
      ≡ audit_line now src host port msg ++ audit_line later other_src other other_port other_msg
unfolding audit_line
audit_line-forged now src host msg later other_src other other_msg port other_port =
    simp (append_assoc)

-- The host of a request goes into the log as it is. For any entry that a client would like to see in the
-- log, there is a host with which one call leaves the file exactly as two calls would, the second with
-- that entry.
pub write_audit_log-forged :
    (log now src host msg later other_src other other_msg : Bytes) (port other_port : ℤ)
    → write_audit_log
        (some log)
        now
        src
        (forged_host host port msg later other_src other)
        other_port
        other_msg
      ≡ write_audit_log
          (write_audit_log (some log) now src host port msg)
          later
          other_src
          other
          other_port
          other_msg
unfolding write_audit_log
write_audit_log-forged log now src host msg later other_src other other_msg port other_port =
    ap some (
      ap (λ s. log ++ s)
        (audit_line-forged now src host msg later other_src other other_msg port other_port)
      ∙ sym (
          append_assoc log (audit_line now src host port msg)
            (audit_line later other_src other other_port other_msg)))
