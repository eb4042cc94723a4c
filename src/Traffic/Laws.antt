-- ===== src/Traffic/Laws.antt =====
-- What a limited writer sends, and what it waits for.
use ssheasy.Base.{
  ℕ, ◌+◌, ◌≤◌, ◌≡◌, refl, List, [], ◌∷◌, ◌++◌, arith, length, All, Bool-cases, inl, inr,
  length-append, ◌∙◌,
}
use ssheasy.Base.Int.{ℤ, pos, ltb_ℤ}
use ssheasy.Base.Text.{Bytes}
use ssheasy.Traffic.{Step, wait_n, write, limited_write, limited_writes}

-- The bytes that reach the writer below, and the bytes for which tokens were asked.
abbrev pub output : List Step → Bytes
output [] = []
output (wait_n n ∷ es) = output es
output (write b ∷ es) = b ++ output es

abbrev pub waited : List Step → ℕ
waited [] = 0
waited (wait_n n ∷ es) = n + waited es
waited (write b ∷ es) = waited es

pub waited-append : (es fs : List Step) → waited (es ++ fs) ≡ waited es + waited fs
waited-append [] fs = omega arith
waited-append (wait_n n ∷ es) fs = omega (arith, waited-append es fs)
waited-append (write b ∷ es) fs = waited-append es fs

abbrev pub joined : List Bytes → Bytes
joined [] = []
joined (b ∷ bs) = b ++ joined bs

-- A sequence of writes sends all bytes in their order, and counts them, whatever the limit.
limited_writes-output :
    (free_limit : ℤ) (written : ℕ) (bs : List Bytes)
    → (output (limited_writes free_limit written bs).1 ≡ joined bs)
      × ((limited_writes free_limit written bs).0 ≡ written + length (joined bs))
unfolding limited_writes limited_write
limited_writes-output free_limit written [] = (refl, omega arith)
limited_writes-output free_limit written (b ∷ bs) =
    let rest = limited_writes-output free_limit (written + length b) bs in
    elim (Bool-cases (ltb_ℤ free_limit (pos written))) [
      | inl e ↦ rw (e, rest.0) (refl, (rest.1 ∙ omega (arith, length-append b (joined bs))))
      | inr e ↦ rw (e, rest.0) (refl, (rest.1 ∙ omega (arith, length-append b (joined bs))))
    ]

bounded_from :
    (limit chunk spent written : ℕ) (bs : List Bytes)
    → All (λ b. length b ≤ chunk) bs
    → written ≤ limit + chunk + spent
    → (limited_writes (pos limit) written bs).0
      ≤ limit + chunk + spent + waited (limited_writes (pos limit) written bs).1
unfolding limited_writes limited_write
bounded_from limit chunk spent written [] h l = omega arith
bounded_from limit chunk spent written (b ∷ bs) (hb, h) l =
    elim (Bool-cases (ltb_ℤ (pos limit) (pos written))) [
      | inl e ↦
          let rest =
            bounded_from limit chunk (spent + length b) (written + length b) bs h (omega arith) in
          rw (e) (omega (arith, rest))
      | inr e ↦
          let small : written + length b ≤ limit + chunk + spent = ground arith in
          let rest = bounded_from limit chunk spent (written + length b) bs h small in
          rw (e) (omega (arith, rest))
    ]

-- Beyond the free bytes and one chunk, every byte waits for a token: if no write is longer than
-- `chunk`, a connection never sends more than the limit, one chunk and the tokens that it asked for.
pub limited_writes_bound :
    (limit chunk : ℕ) (bs : List Bytes)
    → All (λ b. length b ≤ chunk) bs
    → (limited_writes (pos limit) 0 bs).0
      ≤ limit + chunk + waited (limited_writes (pos limit) 0 bs).1
limited_writes_bound limit chunk bs h =
    let from = bounded_from limit chunk 0 0 bs h (omega arith) in omega (arith, from)
