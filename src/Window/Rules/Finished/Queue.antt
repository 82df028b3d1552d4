-- ===== src/Window/Rules/Finished/Queue.antt =====
-- src/api/window/v1.rs: `position` and `swap_remove` on the unmapped windows.
use pinnacle.Common.{
  inl, inr, Option-cases, ℕ, zero, suc, ◌≡◌, refl, Bool, true, false, not, ◌&&◌, List, [], ◌∷◌,
  ◌++◌, some, arith, all, elem, Distinct, get_elem?, last?, map, retain, elem-append,
}
use pinnacle.State.{Unmapped}
use pinnacle.Window.Rules.Finished.{position_of, swap_remove, replace_at, without_last}

pub position_of-get :
    (w i : ℕ) (us : List Unmapped)
    → position_of w us ≡ some i
    → (u : Unmapped) × (get_elem? us i ≡ some u) × (u.window ≡ w)
position_of-get w i [] h = ground arith
position_of-get w zero (u ∷ us) h = (u, refl, ground (arith, position_of w us))
position_of-get w (suc i) (u ∷ us) h = position_of-get w i us (ground (arith, position_of w us))

module _ {ℓ} {A : Type ℓ} where
  pub all-get :
      (f : A → Bool) (x : A) (i : ℕ) (xs : List A)
      → all f xs ≡ true
      → get_elem? xs i ≡ some x
      → f x ≡ true
  all-get f x i [] a h = ground arith
  all-get f x zero (y ∷ ys) a h = ground arith
  all-get f x (suc i) (y ∷ ys) a h = all-get f x i ys (ground arith) h

  all-last : (f : A → Bool) (x : A) (xs : List A) → all f xs ≡ true → last? xs ≡ some x → f x ≡ true
  all-last f x [] a h = ground arith
  all-last f x (y ∷ []) a h = ground arith
  all-last f x (y ∷ z ∷ ys) a h = all-last f x (z ∷ ys) (ground arith) h

  all-replace_at :
      (f : A → Bool) (i : ℕ) (x : A) (xs : List A)
      → all f xs ≡ true
      → f x ≡ true
      → all f (replace_at i x xs) ≡ true
  all-replace_at f i x [] a h = refl
  all-replace_at f zero x (y ∷ ys) a h = ground arith
  all-replace_at f (suc i) x (y ∷ ys) a h = ground (arith, all-replace_at f i x ys)

  all-without_last : (f : A → Bool) (xs : List A) → all f xs ≡ true → all f (without_last xs) ≡ true
  all-without_last f [] a = refl
  all-without_last f (y ∷ []) a = refl
  all-without_last f (y ∷ z ∷ ys) a = ground (arith, all-without_last f (z ∷ ys))

  pub all-swap_remove :
      (f : A → Bool) (i : ℕ) (xs : List A) → all f xs ≡ true → all f (swap_remove i xs) ≡ true
  all-swap_remove f i xs a = elim (Option-cases (last? xs)) [
    | inl e ↦ ground arith
    | inr (x, e) ↦ ground (
      arith,
      all-without_last f (replace_at i x xs),
      all-replace_at f i x xs a,
      all-last f x xs a e,
    )
  ]

  pub all-append : (f : A → Bool) (xs ys : List A) → all f (xs ++ ys) ≡ (all f xs && all f ys)
  all-append f [] ys = refl
  all-append f (x ∷ xs) ys = ground (arith, all-append f xs ys)

  pub all_mono :
      (f g : A → Bool) (xs : List A)
      → ((x : A) → f x ≡ true → g x ≡ true)
      → all f xs ≡ true
      → all g xs ≡ true
  all_mono f g [] h a = refl
  all_mono f g (x ∷ xs) h a = ground (arith, h x, all_mono f g xs h)

Distinct-insert_mid :
    (y : ℕ) (xs ys : List ℕ)
    → Distinct (xs ++ ys)
    → elem y (xs ++ ys) ≡ false
    → Distinct (xs ++ y ∷ ys)
Distinct-insert_mid y [] ys d h = (h, d)
Distinct-insert_mid y (x ∷ xs) ys d h =
    ground (arith, elem-append x xs ys, elem-append x xs (y ∷ ys), Distinct-insert_mid y xs ys d.1)

pub Distinct-rest : (xs ys : List ℕ) → Distinct (xs ++ ys) → Distinct ys
Distinct-rest [] ys d = d
Distinct-rest (x ∷ xs) ys d = Distinct-rest xs ys d.1

abbrev pub keys {ℓ} : {B : Type ℓ} → List (ℕ × B) → List ℕ
keys = map (λ e. e.0)

-- A list of keyed entries, split by a test.
module _ {ℓ} {B : Type ℓ} (f : ℕ × B → Bool) where
  abbrev split_keys : List (ℕ × B) → List ℕ
  split_keys es = keys (retain f es) ++ keys (retain (λ e. not (f e)) es)

  pub elem-keys_split : (w : ℕ) (es : List (ℕ × B)) → elem w (split_keys es) ≡ elem w (keys es)
  elem-keys_split w [] = refl
  elem-keys_split w (e ∷ es) =
      let yes_keys = keys (retain f es) in
      let no_keys = keys (retain (λ a. not (f a)) es) in
      ground (
        arith,
        elem-keys_split w es,
        elem-append w yes_keys no_keys,
        elem-append w yes_keys (e.0 ∷ no_keys),
      )

  pub Distinct-keys_split : (es : List (ℕ × B)) → Distinct (keys es) → Distinct (split_keys es)
  Distinct-keys_split [] d = d
  Distinct-keys_split (e ∷ es) d =
      let yes_keys = keys (retain f es) in
      let no_keys = keys (retain (λ a. not (f a)) es) in
      ground (
        arith,
        elem-keys_split e.0 es,
        Distinct-keys_split es d.1,
        Distinct-insert_mid e.0 yes_keys no_keys,
      )
