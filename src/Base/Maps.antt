-- ===== src/Base/Maps.antt =====
-- A Go map with string keys, as the partial function that it denotes.
use mathlib.Core.Path.{◌≡◌}
use mathlib.Core.Option.{Option, none, some}
use ssheasy.Base.Tests.{if◌then◌else◌}
use ssheasy.Base.Text.{Bytes, bytes_eq, bytes_eq_refl}

abbrev pub Map {ℓ} : Type ℓ → Type ℓ
Map V = Bytes → Option V

module _ {ℓ} {V : Type ℓ} where
  abbrev pub empty : Map V
  empty k = none

  abbrev pub insert : Bytes → V → Map V → Map V
  insert k v m j = if bytes_eq k j then some v else m j

  -- delete(m, k)
  abbrev pub erase : Bytes → Map V → Map V
  erase k m j = if bytes_eq k j then none else m j

  pub insert_self : (k : Bytes) (v : V) (m : Map V) → insert k v m k ≡ some v
  insert_self k v m = rw (bytes_eq_refl k)

  pub erase_self : (k : Bytes) (m : Map V) → erase k m k ≡ none
  erase_self k m = rw (bytes_eq_refl k)
