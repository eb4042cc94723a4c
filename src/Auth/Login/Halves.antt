-- ===== src/Auth/Login/Halves.antt =====
-- proxy/auth.go: what the second half of the POST branch, verifyTOTP and recordLogin, does to the entry
-- of one address, and how the requests of an address are counted.
use ssheasy.Base.{
  ℕ, zero, suc, ◌⊎◌, ◌+◌, ◌≤◌, Bool, true, false, ◌≡◌, refl, List, [], ◌∷◌, ◌++◌, Option, none,
  some, arith, if◌then◌else◌, inl, inr,
}
use ssheasy.Base.Text.{Bytes, bytes_eq, bytes_eq_iff}
use ssheasy.Http.{Request}
use ssheasy.Auth.Lockout.{LoginTable, record_login, add_failure, or_zero, LoginAttempts}
use ssheasy.Auth.ClientIp.{client_ip}
use ssheasy.Auth.Config.{AuthConfig}
use ssheasy.Auth.Login.{Instants, code_ok, verify_post}
use ssheasy.Auth.Login.Laws.{is_rejection, left}

abbrev pub is_from : Bytes → Request × Instants → Bool
is_from ip p = bytes_eq (client_ip p.0) ip

-- The requests of an address.
unfoldable pub count : Bytes → List (Request × Instants) → ℕ
count ip [] = 0
count ip (p ∷ ps) = (if is_from ip p then 1 else 0) + count ip ps

pub count-append :
    (ip : Bytes) (ps qs : List (Request × Instants))
    → count ip (ps ++ qs) ≡ count ip ps + count ip qs
unfolding count
count-append ip [] qs = omega arith
count-append ip (p ∷ ps) qs = omega (arith, count-append ip ps qs)

pub some_or_none : (n : ℕ) → (1 ≤ n) ⊎ (n ≡ 0)
some_or_none zero = inr refl
some_or_none (suc n) = inl (omega arith)

pub one_more : (a b l : ℕ) → a + 1 + b ≤ l → 1 + a + b ≤ l
one_more a b l h = omega arith

-- A failure takes one of what is left, and gives nothing back.
pub left-none :
    (now now' : ℕ) (o : Option LoginAttempts)
    → left o ≡ 0
    → left (some (add_failure now now' (or_zero o))) ≡ 0
unfolding add_failure
left-none now now' none h = absurd (omega arith)
left-none now now' (some a) h = ground arith

module _ (hmac_sha1 hmac_sha256 : Bytes → Bytes → Bytes) (c : AuthConfig) (ip : Bytes) where
  -- A wrong code of the address.
  pub verify-own :
      (p : Request × Instants) (m : LoginTable)
      → is_from ip p ≡ true
      → code_ok hmac_sha1 hmac_sha256 c p.0 p.1 ≡ false
      → let (reply, m') = verify_post hmac_sha1 hmac_sha256 c p.0 p.1 m in
        (is_rejection reply ≡ true)
        × (m' ip ≡ some (add_failure p.1.recorded p.1.locked (or_zero (m ip))))
  unfolding verify_post record_login
  verify-own p m e w =
      let same : client_ip p.0 ≡ ip = (bytes_eq_iff (client_ip p.0) ip).0 e in
      (ground arith, ground (arith, same, bytes_eq_iff ip ip))

  -- A request of another address.
  pub verify-other :
      (p : Request × Instants) (m : LoginTable)
      → is_from ip p ≡ false
      → (verify_post hmac_sha1 hmac_sha256 c p.0 p.1 m).1 ip ≡ m ip
  unfolding verify_post record_login
  verify-other p m e = ground arith
