-- ===== src/Sftp/Names.antt =====
-- web/browser.go: isUnique, and the names that the two uploads choose.
pub mod Laws
use ssheasy.Base.{
  ℕ, zero, suc, ◌+◌, Bool, true, false, List, [], ◌∷◌, ◌++◌, Option, none, some, if◌then◌else◌,
}
use ssheasy.Base.Text.{Bytes, codes, bytes_eq}
use ssheasy.Base.Decimal.{format_nat}
use ssheasy.Sftp.{FileInfo}

-- isUnique
unfoldable pub is_unique : Bytes → List FileInfo → Bool
is_unique fn [] = true
is_unique fn (f ∷ fs) = if bytes_eq f.name fn then false else is_unique fn fs

-- fmt.Sprintf("%s.%d", fileName, i)
abbrev pub numbered : Bytes → ℕ → Bytes
numbered name i = name ++ codes "." ++ format_nat i

-- The loop of `left` rounds from `i` on: the first number whose name is free.
unfoldable pub first_free : Bytes → List FileInfo → ℕ → ℕ → Option ℕ
first_free name files i zero = none
first_free name files i (suc left) =
    let rest = first_free name files (i + 1) left in
    if is_unique (numbered name i) files then some i else rest

abbrev pub rounds : ℕ
rounds = 9999

-- The name that uploadToDownloads creates.
unfoldable pub download_name : Bytes → List FileInfo → Bytes
download_name name files =
    if is_unique name files
    then name
    else elim (first_free name files 1 rounds) [ none ↦ name | some i ↦ numbered name i ]

-- The name that upload creates. The loop's `nfn :=` is a new variable of its body, so the outer one
-- is still empty behind the loop; `none` is the error of an empty name.
unfoldable pub upload_name : Bytes → List FileInfo → Option Bytes
upload_name name files =
    let nfn : Bytes = [] in
    if is_unique name files then some name else if bytes_eq nfn [] then none else some nfn
