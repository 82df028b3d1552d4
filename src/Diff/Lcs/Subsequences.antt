-- ===== src/Diff/Lcs/Subsequences.antt =====
-- src/util/treediff.rs: what it is to be a common subsequence of two lists, and how to read one from the
-- end.
use mathlib.Core.List.{append-nil}
use pinnacle.Common.{◌+◌, ◌≡◌, refl, ◌∙◌, Bool, true, List, [], ◌∷◌, ◌++◌, length, arith}

-- The first list reversed, and then the second.
abbrev pub onto {ℓ} : {B : Type ℓ} → List B → List B → List B
onto [] ys = ys
onto (x ∷ xs) ys = onto xs (x ∷ ys)

onto-onto {ℓ} : {B : Type ℓ} (xs ys zs : List B) → onto (onto xs ys) zs ≡ onto ys (xs ++ zs)
onto-onto [] ys zs = refl
onto-onto (x ∷ xs) ys zs = onto-onto xs (x ∷ ys) zs

pub onto-append_one {ℓ} :
    {B : Type ℓ} (xs : List B) (x : B) (zs : List B) → onto (xs ++ x ∷ []) zs ≡ x ∷ onto xs zs
onto-append_one [] x zs = refl
onto-append_one (y ∷ xs) x zs = onto-append_one xs x (y ∷ zs)

pub length-onto {ℓ} : {B : Type ℓ} (xs ys : List B) → length (onto xs ys) ≡ length xs + length ys
length-onto [] ys = omega arith
length-onto (x ∷ xs) ys = omega (arith, length-onto xs (x ∷ ys))

pub onto_twice {ℓ} : {B : Type ℓ} (xs : List B) → onto (onto xs []) [] ≡ xs
onto_twice xs = onto-onto xs [] [] ∙ append-nil xs

module _ {ℓ} {A : Type ℓ} (equals : A → A → Bool) where
  -- The pairs, in their order, are of elements of the two lists, in their orders, that are equal.
  pub data IsCommon : List A → List A → List (A × A) → Type ℓ where
    done : IsCommon [] [] []
    skip_left :
        {x : A} {xs ys : List A} {s : List (A × A)} → IsCommon xs ys s → IsCommon (x ∷ xs) ys s
    skip_right :
        {y : A} {xs ys : List A} {s : List (A × A)} → IsCommon xs ys s → IsCommon xs (y ∷ ys) s
    match_both :
        {x y : A} {xs ys : List A} {s : List (A × A)}
        → equals x y ≡ true
        → IsCommon xs ys s
        → IsCommon (x ∷ xs) (y ∷ ys) ((x, y) ∷ s)

  pub IsCommon-onto :
      {xs ys xs' ys' : List A} {s s' : List (A × A)}
      → IsCommon xs ys s
      → IsCommon xs' ys' s'
      → IsCommon (onto xs xs') (onto ys ys') (onto s s')
  IsCommon-onto done d = d
  IsCommon-onto (skip_left c) d = IsCommon-onto c (skip_left d)
  IsCommon-onto (skip_right c) d = IsCommon-onto c (skip_right d)
  IsCommon-onto (match_both e c) d = IsCommon-onto c (match_both e d)

  pub skip_all : (xs ys : List A) → IsCommon xs ys []
  skip_all [] [] = done
  skip_all [] (y ∷ ys) = skip_right (skip_all [] ys)
  skip_all (x ∷ xs) ys = skip_left (skip_all xs ys)
