-- ===== src/Reverse/Examples.antt =====
-- The theorems about the port forwards at a concrete state: two ports with a forward each.
use ssheasy.Base.{ℕ, Bool, [], ◌∷◌, true, false, some, ◌≡◌, ◌≢◌, refl}
use ssheasy.Base.Int.{ℤ, pos}
use ssheasy.Base.Text.{Bytes, codes, bytes_eq}
use ssheasy.Base.Decimal.{format_int, format_nat}
use ssheasy.Reverse.{
  Forwards, bind_key, reverse_forward, listened, stop_reverse_forward, no_forwards, Reaches, start,
  listen, re_enabled,
}
use ssheasy.Reverse.Conn.{
  close_accepted, handle_reverse_conn, serve_accepted, IsClosedLast, serve_accepted_obeys,
}
use ssheasy.Reverse.Sessions.{
  Page, is_served, calls, starts, connects, begin, reconnect, connects-stale,
}
use ssheasy.Reverse.Sessions

abbrev web_key : Bytes
web_key = codes "127.0.0.1:80"

abbrev dns_key : Bytes
dns_key = codes "0.0.0.0:53"

two : Forwards
two =
    (listened dns_key (codes "ns") (pos 53)
      (listened web_key (codes "intranet") (pos 8080) no_forwards).1).1

two-Reaches : Reaches two
unfolding two
two-Reaches =
    listen dns_key (codes "ns") (pos 53) _
      (listen web_key (codes "intranet") (pos 8080) no_forwards start)

abbrev reaches : Bytes → ℤ → Bool
reaches host port = true

serve_accepted_obeys_example :
    let stopped = stop_reverse_forward web_key two in
    let again = reverse_forward true (pos 80) false (codes "git") (pos 3000) two in
    (serve_accepted reaches 0 stopped ≡ close_accepted ∷ [])
    × (again.0 ≡ re_enabled web_key)
    × (serve_accepted reaches 0 again.1 ≡ handle_reverse_conn reaches (codes "git") (pos 3000))
    × ((other : Bytes) (m : ℕ)
        → two.rev_fwds other ≡ some m
        → other ≢ web_key
        → (serve_accepted reaches m stopped ≡ serve_accepted reaches m two)
          × (serve_accepted reaches m again.1 ≡ serve_accepted reaches m two))
    × IsClosedLast (serve_accepted reaches 0 two)
unfolding two bind_key format_int format_nat listened bytes_eq
serve_accepted_obeys_example =
    serve_accepted_obeys reaches two false (pos 80) (pos 3000) (codes "git") 0 two-Reaches refl

-- A page with a forward from its first session.
abbrev first : Page
first = connects (record { forwards = no_forwards; session = 0; listeners = [] })

connects-stale_example :
    let p = starts web_key (codes "intranet") (pos 8080) first in
    let (a, q) = calls false (pos 80) (codes "intranet") (pos 8080) (connects p) in
    (a ≡ re_enabled web_key) × (is_served web_key q.session q.listeners ≡ false)
unfolding bind_key format_int format_nat listened bytes_eq
connects-stale_example =
    connects-stale (starts web_key (codes "intranet") (pos 8080) first) false (pos 80) (pos 8080)
      (codes "intranet") 0
      (Sessions.start web_key (codes "intranet") (pos 8080) first
        (reconnect (record { forwards = no_forwards; session = 0; listeners = [] }) begin))
      refl
