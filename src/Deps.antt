-- ===== src/Deps.antt =====
-- What the modelled code takes from other crates, as parameters: `indexmap`'s ordered sets, and
-- the answers of smithay that no state of the compositor determines. A set is the list of its
-- members in iteration order.
use pinnacle.Common.{
  Option, lookup, insert_entry, without_key, ℕ, ◌≡◌, Bool, true, false, not, List, [], ◌∷◌, ◌++◌,
  elem, any, without, if◌then◌else◌,
}
use pinnacle.Geometry.{Size}

-- `IndexSet`: `insert` appends a new member and says whether it was new; `shift_remove` keeps the
-- order of the others and says whether the member was there.
pub record IndexSet : Type 0 where
  pub contains : List ℕ → ℕ → Bool
  pub insert : List ℕ → ℕ → List ℕ × Bool
  pub shift_remove : List ℕ → ℕ → List ℕ × Bool
  pub is_disjoint : List ℕ → List ℕ → Bool
  pub contains_lem : (s : List ℕ) (x : ℕ) → contains s x ≡ elem x s
  pub insert_lem :
      (s : List ℕ) (x : ℕ) → insert s x ≡ (if elem x s then (s, false) else (s ++ x ∷ [], true))
  pub shift_remove_lem : (s : List ℕ) (x : ℕ) → shift_remove s x ≡ (without x s, elem x s)
  pub is_disjoint_lem : (s t : List ℕ) → is_disjoint s t ≡ not (any (λ x. elem x t) s)

-- `Size::is_empty`.
pub record Smithay : Type 0 where
  pub size_is_empty : Size → Bool

-- `IndexMap`, the list of its entries in iteration order: `get`, `insert` and `shift_remove`.
pub record IndexMap (A : Type 0) : Type 0 where
  pub get : List (ℕ × A) → ℕ → Option A
  pub put : List (ℕ × A) → ℕ → A → List (ℕ × A)
  pub take_out : List (ℕ × A) → ℕ → List (ℕ × A)
  pub get_lem : (m : List (ℕ × A)) (k : ℕ) → get m k ≡ lookup k m
  pub put_lem : (m : List (ℕ × A)) (k : ℕ) (a : A) → put m k a ≡ insert_entry k a m
  pub take_out_lem : (m : List (ℕ × A)) (k : ℕ) → take_out m k ≡ without_key k m
