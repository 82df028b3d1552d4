-- ===== src/Layout/Tree/Walk/Visits.antt =====
-- src/layout/tree.rs: what the order of the children leaves alone in the loop of `compute_geos_rec`.
use pinnacle.Common.{
  ℕ, zero, suc, ◌≡◌, refl, ◌⊎◌, inl, inr, Bool, true, false, not, ◌||◌, List, [], ◌∷◌, ◌++◌, Option,
  none, some, any, elem, get_elem?, leb, arith, Bool-cases, Option-cases, ap, ◌∙◌, sym, subst,
}
use pinnacle.Geometry.{Rectangle}
use pinnacle.Layout.Tree.Walk.{
  Walk, Visit, sorted_in, sort_by_index, values, remove_at, promote, try_each,
}

abbrev pub Each {ℓ κ} : {A : Type ℓ} → (A → Type κ) → List A → Type κ
Each P [] = Unit
Each P (x ∷ xs) = P x × Each P xs

same_value {ℓ} : {A : Type ℓ} {x y : A} → some x ≡ some y → x ≡ y
same_value e = cc

-- The choice that `promote` makes.
abbrev chosen {ℓ} : {A : Type ℓ} → ℕ → List A → Option A → List A
chosen i xs o = elim o [ none ↦ xs | some x ↦ x ∷ remove_at i xs ]

module _ {ℓ κ} {A : Type ℓ} (P : A → Type κ) where
  Each-sorted_in :
      (k : ℕ) (a : A) (xs : List (ℕ × A))
      → P a
      → Each P (values xs)
      → Each P (values (sorted_in (k, a) xs))
  Each-sorted_in k a [] p ps = (p, tt)
  Each-sorted_in k a ((j, b) ∷ rest) p ps = elim (Bool-cases (leb k j)) [
    | inl e ↦ rw e (p, ps)
    | inr e ↦ rw e (ps.0, Each-sorted_in k a rest p ps.1)
  ]

  pub Each-sort_by_index :
      (xs : List (ℕ × A)) → Each P (values xs) → Each P (values (sort_by_index xs))
  Each-sort_by_index [] ps = tt
  Each-sort_by_index ((k, a) ∷ rest) ps =
      Each-sorted_in k a (sort_by_index rest) ps.0 (Each-sort_by_index rest ps.1)

  Each-get_elem? : (xs : List A) (i : ℕ) (x : A) → Each P xs → get_elem? xs i ≡ some x → P x
  Each-get_elem? [] i x ps e = absurd (ground (arith, e))
  Each-get_elem? (y ∷ ys) zero x ps e = subst P (same_value e) ps.0
  Each-get_elem? (y ∷ ys) (suc i) x ps e = Each-get_elem? ys i x ps.1 e

  Each-remove_at : (i : ℕ) (xs : List A) → Each P xs → Each P (remove_at i xs)
  Each-remove_at i [] ps = tt
  Each-remove_at zero (x ∷ xs) ps = ps.1
  Each-remove_at (suc i) (x ∷ xs) ps = (ps.0, Each-remove_at i xs ps.1)

  pub Each-promote : (o : Option ℕ) (xs : List A) → Each P xs → Each P (promote o xs)
  Each-promote none xs ps = ps
  Each-promote (some i) xs ps = elim (Option-cases (get_elem? xs i)) [
    | inl e ↦ subst (λ o. Each P (chosen i xs o)) (sym e) ps
    | inr (x, e) ↦
        subst (λ o. Each P (chosen i xs o)) (sym e)
          (Each-get_elem? xs i x ps e, Each-remove_at i xs ps)
  ]

module _ {ℓ} {A : Type ℓ} (p : A → Bool) where
  any-sorted_in :
      (k : ℕ) (a : A) (xs : List (ℕ × A))
      → any p (values (sorted_in (k, a) xs)) ≡ (p a || any p (values xs))
  any-sorted_in k a [] = refl
  any-sorted_in k a ((j, b) ∷ rest) = ground (arith, any-sorted_in k a rest)

  pub any-sort_by_index :
      (xs : List (ℕ × A)) → any p (values (sort_by_index xs)) ≡ any p (values xs)
  any-sort_by_index [] = refl
  any-sort_by_index ((k, a) ∷ rest) =
      any-sorted_in k a (sort_by_index rest) ∙ ap (λ b. p a || b) (any-sort_by_index rest)

  any-remove_at :
      (i : ℕ) (xs : List A) (x : A)
      → get_elem? xs i ≡ some x
      → (p x || any p (remove_at i xs)) ≡ any p xs
  any-remove_at i [] x e = absurd (ground (arith, e))
  any-remove_at zero (y ∷ ys) x e = ground (arith, e)
  any-remove_at (suc i) (y ∷ ys) x e = ground (arith, any-remove_at i ys x e)

  pub any-promote : (o : Option ℕ) (xs : List A) → any p (promote o xs) ≡ any p xs
  any-promote none xs = refl
  any-promote (some i) xs = elim (Option-cases (get_elem? xs i)) [
    | inl e ↦ ap (λ o. any p (chosen i xs o)) e
    | inr (x, e) ↦ ap (λ o. any p (chosen i xs o)) e ∙ any-remove_at i xs x e
  ]

abbrev pub parents : List (Rectangle × ℕ) → List ℕ
parents [] = []
parents ((g, n) ∷ rest) = n ∷ parents rest

pub parents-append : (xs ys : List (Rectangle × ℕ)) → parents (xs ++ ys) ≡ parents xs ++ parents ys
parents-append [] ys = refl
parents-append ((g, n) ∷ rest) ys = ap (◌∷◌ n) (parents-append rest ys)

-- A tile is a leaf of the taffy tree, with its parent.
abbrev pub In : List (ℕ × ℕ) → ℕ × ℕ → Type 0
In [] t = ⊥
In (x ∷ xs) t = (x ≡ t) ⊎ In xs t

-- A call that gives out a tile that was not given out before, and tells which.
abbrev pub Takes : List (ℕ × ℕ) → Walk → Bool × Walk → Type 0
Takes ts w r =
    (leaf : ℕ) × (parent : ℕ) × In ts (leaf, parent)
    × (elem leaf w.node_assigned ≡ false)
    × (r.0 ≡ true)
    × (r.1.node_assigned ≡ leaf ∷ w.node_assigned)
    × (parents r.1.geos ≡ parents w.geos ++ parent ∷ [])

-- Some of the tiles was not given out.
abbrev pub open_in : List (ℕ × ℕ) → Walk → Bool
open_in [] w = false
open_in ((leaf, parent) ∷ ts) w = not (elem leaf w.node_assigned) || open_in ts w

module _ {F : Type 0} (ts : List (ℕ × ℕ)) where
  abbrev pub IsSound : Visit F → Type 0
  IsSound v =
      (x y : F) (overrides : List ℕ) (w : Walk)
      → (v x y overrides w ≡ (false, w)) ⊎ Takes ts w (v x y overrides w)

  abbrev pub IsComplete : Visit F → Type 0
  IsComplete v =
      (x y : F) (overrides : List ℕ) (w : Walk) → open_in ts w ≡ true → (v x y overrides w).0 ≡ true

  pub try_each-IsSound : (id : ℕ) (vs : List (Visit F)) → Each IsSound vs → IsSound (try_each id vs)
  try_each-IsSound id [] s x y o w = inl refl
  try_each-IsSound id (v ∷ vs) s x y o w = elim (s.0 x y o w) [
    | inl e ↦ rw e (try_each-IsSound id vs s.1 x y o w)
    | inr (leaf, parent, i, n, e, a, g) ↦ inr (leaf, parent, i, n, rw e refl, rw e a, rw e g)
  ]

  pub try_each-fires :
      (id : ℕ) (vs : List (Visit F)) (x y : F) (o : List ℕ) (w : Walk)
      → Each IsSound vs
      → any (λ v. (v x y o w).0) vs ≡ true
      → (try_each id vs x y o w).0 ≡ true
  try_each-fires id [] x y o w s h = h
  try_each-fires id (v ∷ vs) x y o w s h = elim (s.0 x y o w) [
    | inl e ↦ rw e (try_each-fires id vs x y o w s.1 (ground (arith, e)))
    | inr (leaf, parent, i, n, e, a, g) ↦ rw e refl
  ]
