-- ===== src/Common/Maps.antt =====
-- Maps keyed by numbers, as lists of entries.
use Prim.Native.Nat.{ℕ}
use mathlib.Core.Path.{◌≡◌, refl}
use mathlib.Core.List.{List, [], ◌∷◌}
use mathlib.Core.Option.{Option, none, some}
use native.Mathlib.Omega.{arith}
use pinnacle.Common.Tests.{if◌then◌else◌, ◌==◌}

module _ {ℓ} {A : Type ℓ} where
  abbrev pub lookup : ℕ → List (ℕ × A) → Option A
  lookup k [] = none
  lookup k ((j, a) ∷ rest) = let found = lookup k rest in if j == k then some a else found

  -- A new entry goes to the end, an old one is replaced where it stands.
  abbrev pub insert_entry : ℕ → A → List (ℕ × A) → List (ℕ × A)
  insert_entry k b [] = (k, b) ∷ []
  insert_entry k b ((j, a) ∷ rest) =
      let later = insert_entry k b rest in if j == k then (k, b) ∷ rest else (j, a) ∷ later

  abbrev pub without_key : ℕ → List (ℕ × A) → List (ℕ × A)
  without_key k [] = []
  without_key k ((j, a) ∷ rest) =
      let later = without_key k rest in if j == k then later else (j, a) ∷ later

  -- `HashMap::retain` on the keys.
  abbrev pub retain_key : ℕ → List (ℕ × A) → List (ℕ × A)
  retain_key k [] = []
  retain_key k ((j, a) ∷ rest) =
      let later = retain_key k rest in if j == k then (j, a) ∷ later else later

  pub lookup-insert :
      (k j : ℕ) (b : A) (m : List (ℕ × A))
      → lookup j (insert_entry k b m) ≡ (if k == j then some b else lookup j m)
  lookup-insert k j b [] = refl
  lookup-insert k j b ((i, a) ∷ rest) = ground (arith, lookup-insert k j b rest)

  pub lookup-without :
      (k j : ℕ) (m : List (ℕ × A))
      → lookup j (without_key k m) ≡ (if k == j then none else lookup j m)
  lookup-without k j [] = ground arith
  lookup-without k j ((i, a) ∷ rest) = ground (arith, lookup-without k j rest)

  pub lookup-retain_key :
      (k j : ℕ) (m : List (ℕ × A))
      → lookup j (retain_key k m) ≡ (if k == j then lookup j m else none)
  lookup-retain_key k j [] = ground arith
  lookup-retain_key k j ((i, a) ∷ rest) = ground (arith, lookup-retain_key k j rest)
