-- ===== src/Common/Lists.antt =====
-- Lists measured by native numbers and searched by Boolean tests: what the code uses of `Vec`,
-- `slice` and iterators.
use Prim.Native.Nat.{ℕ, zero, suc, ◌+◌, ◌≤◌}
use mathlib.Core.Path.{◌≡◌, refl}
use mathlib.Core.Bool.{Bool, true, false, not, ◌||◌, ◌&&◌}
use mathlib.Core.List.{List, [], ◌∷◌, ◌++◌}
use mathlib.Core.Option.{Option, none, some}
use native.Mathlib.Omega.{arith}
use pinnacle.Common.Tests.{if◌then◌else◌, ◌==◌}

module _ {ℓ} {A : Type ℓ} where
  abbrev pub length : List A → ℕ
  length [] = 0
  length (x ∷ xs) = suc (length xs)

  abbrev pub get_elem? : List A → ℕ → Option A
  get_elem? [] i = none
  get_elem? (x ∷ xs) zero = some x
  get_elem? (x ∷ xs) (suc i) = get_elem? xs i

  -- `Vec::retain` and `Iterator::filter`.
  abbrev pub retain : (A → Bool) → List A → List A
  retain p [] = []
  retain p (x ∷ xs) = let rest = retain p xs in if p x then x ∷ rest else rest

  -- `Iterator::find`, `any` and `all`.
  abbrev pub find : (A → Bool) → List A → Option A
  find p [] = none
  find p (x ∷ xs) = let rest = find p xs in if p x then some x else rest

  abbrev pub any : (A → Bool) → List A → Bool
  any p [] = false
  any p (x ∷ xs) = p x || any p xs

  abbrev pub all : (A → Bool) → List A → Bool
  all p [] = true
  all p (x ∷ xs) = p x && all p xs

  -- `slice::first` and `slice::last`.
  abbrev pub first? : List A → Option A
  first? [] = none
  first? (x ∷ xs) = some x

  abbrev pub last? : List A → Option A
  last? [] = none
  last? (x ∷ []) = some x
  last? (x ∷ y ∷ xs) = last? (y ∷ xs)

  -- `Vec::insert(i, x)`; Rust panics where `i` is above the length.
  abbrev pub insert_at : ℕ → A → List A → List A
  insert_at zero x ys = x ∷ ys
  insert_at (suc i) x [] = x ∷ []
  insert_at (suc i) x (y ∷ ys) = y ∷ insert_at i x ys

  pub length-append : (xs ys : List A) → length (xs ++ ys) ≡ length xs + length ys
  length-append [] ys = omega arith
  length-append (x ∷ xs) ys = omega (arith, length-append xs ys)

  pub length-retain-le : (p : A → Bool) (xs : List A) → length (retain p xs) ≤ length xs
  length-retain-le p [] = omega arith
  length-retain-le p (x ∷ xs) = ground (arith, length-retain-le p xs)

  pub retain-append :
      (p : A → Bool) (xs ys : List A) → retain p (xs ++ ys) ≡ retain p xs ++ retain p ys
  retain-append p [] ys = refl
  retain-append p (x ∷ xs) ys = ground (arith, retain-append p xs ys)

  pub retain-retain : (p : A → Bool) (xs : List A) → retain p (retain p xs) ≡ retain p xs
  retain-retain p [] = refl
  retain-retain p (x ∷ xs) = ground (arith, retain-retain p xs)

  pub any-append : (p : A → Bool) (xs ys : List A) → any p (xs ++ ys) ≡ (any p xs || any p ys)
  any-append p [] ys = refl
  any-append p (x ∷ xs) ys = ground (arith, any-append p xs ys)

  pub last?-append_one : (xs : List A) (x : A) → last? (xs ++ x ∷ []) ≡ some x
  last?-append_one [] x = refl
  last?-append_one (y ∷ []) x = refl
  last?-append_one (y ∷ z ∷ xs) x = last?-append_one (z ∷ xs) x

-- Numbers stand for pointers and identifiers, and are compared.
abbrev pub elem : ℕ → List ℕ → Bool
elem a [] = false
elem a (x ∷ xs) = (x == a) || elem a xs

abbrev pub without : ℕ → List ℕ → List ℕ
without a xs = retain (λ x. not (x == a)) xs

pub elem-append : (a : ℕ) (xs ys : List ℕ) → elem a (xs ++ ys) ≡ (elem a xs || elem a ys)
elem-append a [] ys = refl
elem-append a (x ∷ xs) ys = ground (arith, elem-append a xs ys)

pub elem-retain : (p : ℕ → Bool) (a : ℕ) (xs : List ℕ) → elem a (retain p xs) ≡ (p a && elem a xs)
elem-retain p a [] = ground arith
elem-retain p a (x ∷ xs) = ground (arith, elem-retain p a xs)

pub elem-without : (a b : ℕ) (xs : List ℕ) → elem b (without a xs) ≡ (not (b == a) && elem b xs)
elem-without a b xs = elem-retain (λ x. not (x == a)) b xs

-- No value twice.
abbrev pub Distinct : List ℕ → Type 0
Distinct [] = Unit {0}
Distinct (x ∷ xs) = (elem x xs ≡ false) × Distinct xs

pub Distinct-retain : (p : ℕ → Bool) (xs : List ℕ) → Distinct xs → Distinct (retain p xs)
Distinct-retain p [] d = tt
Distinct-retain p (x ∷ xs) d = ground (arith, elem-retain p x xs, Distinct-retain p xs d.1)

pub Distinct-append_one :
    (xs : List ℕ) (a : ℕ) → Distinct xs → elem a xs ≡ false → Distinct (xs ++ a ∷ [])
Distinct-append_one [] a d h = (refl, tt)
Distinct-append_one (x ∷ xs) a d h =
    ground (arith, elem-append x xs (a ∷ []), Distinct-append_one xs a d.1)

pub without-absent : (a : ℕ) (xs : List ℕ) → elem a xs ≡ false → without a xs ≡ xs
without-absent a [] h = refl
without-absent a (x ∷ xs) h = ground (arith, without-absent a xs)

pub elem-without_self : (a : ℕ) (xs : List ℕ) → elem a (without a xs) ≡ false
elem-without_self a xs = ground (arith, elem-without a a xs)

pub elem-insert_at : (a i w : ℕ) (xs : List ℕ) → elem a (insert_at i w xs) ≡ ((w == a) || elem a xs)
elem-insert_at a zero w xs = refl
elem-insert_at a (suc i) w [] = refl
elem-insert_at a (suc i) w (x ∷ xs) = ground (arith, elem-insert_at a i w xs)

pub Distinct-insert_at :
    (i w : ℕ) (xs : List ℕ) → Distinct xs → elem w xs ≡ false → Distinct (insert_at i w xs)
Distinct-insert_at zero w xs d h = (h, d)
Distinct-insert_at (suc i) w [] d h = (refl, tt)
Distinct-insert_at (suc i) w (x ∷ xs) d h =
    ground (arith, elem-insert_at x i w xs, Distinct-insert_at i w xs d.1)
