-- ===== src/Sftp/Names/Laws.antt =====
-- Which names the two uploads choose.
use ssheasy.Base.{
  ℕ, zero, suc, ◌+◌, ◌≤◌, ◌<◌, true, false, ◌≡◌, ◌≢◌, refl, ◌↔◌, ◌⊎◌, inl, inr, List, [], ◌∷◌, ◌++◌,
  none, some, arith, if◌then◌else◌, Bool-cases, subst, sym, ap, ◌∙◌, length, drop,
  drop-length-append, length-append,
}
use ssheasy.Base.Text.{Bytes, codes, bytes_eq, bytes_eq_iff}
use ssheasy.Base.Decimal.{format_nat, parse_digits, parse_digits-format_nat}
use ssheasy.Sftp.{FileInfo}
use ssheasy.Sftp.Names.{is_unique, numbered, first_free, download_name, upload_name}

-- Some entry of the directory has this name.
abbrev pub IsTaken : Bytes → List FileInfo → Type 0
IsTaken fn [] = ⊥
IsTaken fn (f ∷ fs) = (f.name ≡ fn) ⊎ IsTaken fn fs

pub is_unique_iff :
    (fn : Bytes) (files : List FileInfo) → (is_unique fn files ≡ true) ↔ (¬ IsTaken fn files)
unfolding is_unique
is_unique_iff fn [] = ground arith
is_unique_iff fn (f ∷ fs) = ground (arith, is_unique_iff fn fs, bytes_eq_iff f.name fn)

pub IsTaken-iff :
    (fn : Bytes) (files : List FileInfo) → (is_unique fn files ≡ false) ↔ IsTaken fn files
unfolding is_unique
IsTaken-iff fn [] = ground arith
IsTaken-iff fn (f ∷ fs) = ground (arith, IsTaken-iff fn fs, bytes_eq_iff f.name fn)

-- The numbers from `i` up to `n` are taken.
abbrev pub TakenFrom : Bytes → List FileInfo → ℕ → ℕ → Type 0
TakenFrom name files i zero = Unit
TakenFrom name files i (suc n) = IsTaken (numbered name i) files × TakenFrom name files (i + 1) n

-- The loop finds the number behind `n` taken ones.
first_free-some :
    (name : Bytes) (files : List FileInfo) (i n more : ℕ)
    → TakenFrom name files i n
    → ¬ IsTaken (numbered name (i + n)) files
    → first_free name files i (n + suc more) ≡ some (i + n)
unfolding first_free
first_free-some name files i zero more t f =
    let e : i + zero ≡ i = omega arith in
    let e' : zero + suc more ≡ suc more = omega arith in
    rw (e') (ground (arith, is_unique_iff (numbered name i) files, e))
first_free-some name files i (suc n) more (t, ts) f =
    let e : i + suc n ≡ i + 1 + n = omega arith in
    let e' : suc n + suc more ≡ suc (n + suc more) = omega arith in
    rw (e') (
      rw (e) (
        ground (
          arith,
          IsTaken-iff (numbered name i) files,
          first_free-some name files (i + 1) n more ts
              (subst (λ k. ¬ IsTaken (numbered name k) files) e f),
        )))

first_free-none :
    (name : Bytes) (files : List FileInfo) (i n : ℕ)
    → TakenFrom name files i n
    → first_free name files i n ≡ none
unfolding first_free
first_free-none name files i zero t = refl
first_free-none name files i (suc n) (t, ts) =
    ground (arith, IsTaken-iff (numbered name i) files, first_free-none name files (i + 1) n ts)

-- Different numbers give different names, and none of them is the name itself.
numbered_injective : (name : Bytes) (i j : ℕ) → numbered name i ≡ numbered name j → i ≡ j
numbered_injective name i j e =
    let start = name ++ codes "." in
    let same : format_nat i ≡ format_nat j =
      sym (drop-length-append start (format_nat i))
      ∙ ap (drop (length start)) e
      ∙ drop-length-append start (format_nat j) in
    let read : parse_digits (format_nat i) ≡ parse_digits (format_nat j) = ap parse_digits same in
    ground (arith, parse_digits-format_nat i, parse_digits-format_nat j)

numbered_longer : (name : Bytes) (i : ℕ) → numbered name i ≢ name
numbered_longer name i e =
    let l : length (numbered name i) ≡ length name = ap length e in
    omega
      (arith, l, length-append (name ++ codes ".") (format_nat i), length-append name (codes "."))

-- The directory without the entries of one name.
without : Bytes → List FileInfo → List FileInfo
without fn [] = []
without fn (f ∷ fs) = let rest = without fn fs in if bytes_eq f.name fn then rest else f ∷ rest

without_shorter : (fn : Bytes) (files : List FileInfo) → length (without fn files) ≤ length files
unfolding without
without_shorter fn [] = omega arith
without_shorter fn (f ∷ fs) = ground (arith, without_shorter fn fs)

without_taken :
    (fn : Bytes) (files : List FileInfo)
    → IsTaken fn files
    → length (without fn files) < length files
unfolding without
without_taken fn [] t = elim t [ ]
without_taken fn (f ∷ fs) t =
    ground (arith, without_taken fn fs, without_shorter fn fs, bytes_eq_iff f.name fn)

without_other :
    (fn other : Bytes) (files : List FileInfo)
    → other ≢ fn
    → IsTaken other files
    → IsTaken other (without fn files)
unfolding without
without_other fn other [] ne t = elim t [ ]
without_other fn other (f ∷ fs) ne t =
    ground (arith, without_other fn other fs ne, bytes_eq_iff f.name fn)

without_from :
    (name fn : Bytes) (files : List FileInfo) (i n : ℕ)
    → ((j : ℕ) → i ≤ j → numbered name j ≢ fn)
    → TakenFrom name files i n
    → TakenFrom name (without fn files) i n
without_from name fn files i zero ne t = tt
without_from name fn files i (suc n) ne (t, ts) = (
  without_other fn (numbered name i) files (ne i (omega arith)) t,
  without_from name fn files (i + 1) n (λ j l. ne j (omega arith)) ts,
)

-- `n` taken numbers need as many entries.
taken_bound :
    (name : Bytes) (files : List FileInfo) (i n : ℕ) → TakenFrom name files i n → n ≤ length files
taken_bound name files i zero t = omega arith
taken_bound name files i (suc n) (t, ts) =
    let fn = numbered name i in
    let apart : (j : ℕ) → i + 1 ≤ j → numbered name j ≢ fn =
      λ j l e. ground (arith, numbered_injective name j i e) in
    omega (
      arith,
      taken_bound name (without fn files) (i + 1) n (without_from name fn files (i + 1) n apart ts),
      without_taken fn files t,
    )

least_free :
    (name : Bytes) (files : List FileInfo) (i n : ℕ)
    → TakenFrom name files i n
      ⊎ ((k more : ℕ) × (n ≡ k + suc more)
          × TakenFrom name files i k
          × (¬ IsTaken (numbered name (i + k)) files))
least_free name files i zero = inl tt
least_free name files i (suc n) = elim (Bool-cases (is_unique (numbered name i) files)) [
  | inl u ↦ inr (0, n, omega arith, tt, free u)
  | inr u ↦ elim (least_free name files (i + 1) n) [
    | inl t ↦ inl ((IsTaken-iff (numbered name i) files).0 u, t)
    | inr (k, more, e, t, f) ↦
        inr (suc k, more, omega arith, ((IsTaken-iff (numbered name i) files).0 u, t), shifted k f)
  ]
]
  where
    free : is_unique (numbered name i) files ≡ true → ¬ IsTaken (numbered name (i + 0)) files
    free u = let e : i + 0 ≡ i = omega arith in rw (e) ((is_unique_iff (numbered name i) files).0 u)

    shifted :
        (k : ℕ)
        → ¬ IsTaken (numbered name (i + 1 + k)) files
        → ¬ IsTaken (numbered name (i + suc k)) files
    shifted k f = let e : i + suc k ≡ i + 1 + k = omega arith in rw (e) f

-- uploadToDownloads creates the name itself if it is free, and otherwise the name with the least free
-- number below 10000. If all of these are taken, it creates the name that is taken.
download_name_lem :
    (name : Bytes) (files : List FileInfo)
    → (¬ IsTaken name files → download_name name files ≡ name)
      × ((n more : ℕ)
          → IsTaken name files
          → TakenFrom name files 1 n
          → ¬ IsTaken (numbered name (1 + n)) files
          → n + suc more ≡ 9999
          → download_name name files ≡ numbered name (1 + n))
      × (IsTaken name files → TakenFrom name files 1 9999 → download_name name files ≡ name)
unfolding download_name
download_name_lem name files = (
  λ f. ground (arith, is_unique_iff name files),
  λ n more t ts f e.
      let found : first_free name files 1 9999 ≡ some (1 + n) =
        subst (λ l. first_free name files 1 l ≡ some (1 + n)) e
          (first_free-some name files 1 n more ts f) in
      rw ((IsTaken-iff name files).1 t, found) refl,
  λ t ts. rw ((IsTaken-iff name files).1 t, first_free-none name files 1 9999 ts) refl,
)

-- With fewer than 10000 entries in the directory, uploadToDownloads never creates a name that is taken.
pub download_name-free :
    (name : Bytes) (files : List FileInfo)
    → length files < 10000
    → ¬ IsTaken (download_name name files) files
download_name-free name files few = elim (Bool-cases (is_unique name files)) [
  | inl u ↦
      let f : ¬ IsTaken name files = (is_unique_iff name files).0 u in
      rw ((download_name_lem name files).0 f) f
  | inr u ↦
      let t : IsTaken name files = (IsTaken-iff name files).0 u in
      elim (least_free name files 1 9999) [
        | inl ts ↦
            let other = without_from name name files 1 9999 (λ j l. numbered_longer name j) ts in
            absurd (
              omega (
                arith,
                taken_bound name (without name files) 1 9999 other,
                without_taken name files t,
              ))
        | inr (k, more, e, ts, f) ↦ rw ((download_name_lem name files).1 k more t ts f (sym e)) f
      ]
]

-- upload creates the name itself if it is free. If it is taken, upload fails, whatever numbers are free.
pub upload_name_lem :
    (name : Bytes) (files : List FileInfo)
    → (¬ IsTaken name files → upload_name name files ≡ some name)
      × (IsTaken name files → upload_name name files ≡ none)
unfolding upload_name bytes_eq
upload_name_lem name files =
    (λ f. rw ((is_unique_iff name files).1 f) refl, λ t. rw ((IsTaken-iff name files).1 t) refl)
