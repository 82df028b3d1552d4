-- ===== src/Focus/Topmost.antt =====
-- The topmost element of a stack that passes a test, and how it moves with the stack.
use mathlib.Core.List.{reverse, reverse-cons}
use pinnacle.Common.{
  ℕ, ◌-◌, ◌≡◌, refl, ◌≢◌, ◌⊎◌, ap, Bool, true, ◌&&◌, List, [], ◌∷◌, ◌++◌, Option, none, some, arith,
  length, length-append, retain, retain-append, find, last?, insert_at, elem, without, or_else,
  if◌then◌else◌, inl, inr,
}

abbrev pub topmost : (ℕ → Bool) → List ℕ → Option ℕ
topmost p [] = none
topmost p (x ∷ xs) = or_else (topmost p xs) (if p x then some x else none)

pub find-append :
    (p : ℕ → Bool) (xs ys : List ℕ) → find p (xs ++ ys) ≡ or_else (find p xs) (find p ys)
find-append p [] ys = refl
find-append p (x ∷ xs) ys = ground (arith, find-append p xs ys)

-- From the end, the first that passes both tests.
pub find-reverse :
    (p q : ℕ → Bool) (xs : List ℕ) → find q (retain p (reverse xs)) ≡ topmost (λ x. p x && q x) xs
find-reverse p q [] = refl
find-reverse p q (x ∷ xs) =
    rw
      (
        reverse-cons x xs,
        retain-append p (reverse xs) (x ∷ []),
        find-append q (retain p (reverse xs)) (retain p (x ∷ [])),
      )
      (ground (arith, find-reverse p q xs))

last?-cons : (x : ℕ) (xs : List ℕ) → last? (x ∷ xs) ≡ or_else (last? xs) (some x)
last?-cons x [] = refl
last?-cons x (y ∷ []) = refl
last?-cons x (y ∷ z ∷ xs) = ground (arith, last?-cons y (z ∷ xs))

pub last?-retain : (p : ℕ → Bool) (xs : List ℕ) → last? (retain p xs) ≡ topmost p xs
last?-retain p [] = refl
last?-retain p (x ∷ xs) = ground (arith, last?-cons x (retain p xs), last?-retain p xs)

pub topmost-append :
    (p : ℕ → Bool) (xs ys : List ℕ) → topmost p (xs ++ ys) ≡ or_else (topmost p ys) (topmost p xs)
topmost-append p [] ys = ground arith
topmost-append p (x ∷ xs) ys = ground (arith, topmost-append p xs ys)

-- What is taken out of the stack was not the topmost, or makes room for the next.
pub topmost-without :
    (p : ℕ → Bool) (a : ℕ) (xs : List ℕ)
    → topmost p xs ≢ some a
    → topmost p (without a xs) ≡ topmost p xs
topmost-without p a [] h = refl
topmost-without p a (x ∷ xs) h = ground (arith, topmost-without p a xs)

-- What is found passes the test and is on the stack.
pub topmost-some :
    (p : ℕ → Bool) (xs : List ℕ) (a : ℕ) → topmost p xs ≡ some a → (p a ≡ true) × (elem a xs ≡ true)
topmost-some p [] a e = cc
topmost-some p (x ∷ xs) a e = ground (arith, topmost-some p xs a)

-- A stack is empty or has a top.
pub top-cases : (xs : List ℕ) → (xs ≡ []) ⊎ ((rest : List ℕ) × (top : ℕ) × (xs ≡ rest ++ top ∷ []))
top-cases [] = inl refl
top-cases (x ∷ xs) = elim (top-cases xs) [
  | inl e ↦ inr ([], x, ap (◌∷◌ x) e)
  | inr (rest, top, e) ↦ inr (x ∷ rest, top, ap (◌∷◌ x) e)
]

insert_at-length :
    (xs : List ℕ) (a : ℕ) (ys : List ℕ) → insert_at (length xs) a (xs ++ ys) ≡ xs ++ a ∷ ys
insert_at-length [] a ys = refl
insert_at-length (x ∷ xs) a ys = ap (◌∷◌ x) (insert_at-length xs a ys)

top_index : (rest : List ℕ) (top : ℕ) → length (rest ++ top ∷ []) - 1 ≡ length rest
top_index rest top = omega (arith, length-append rest (top ∷ []))

-- `Vec::insert` one below the top leaves the top where it is.
pub insert_below_top :
    (rest : List ℕ) (top a : ℕ)
    → insert_at (length (rest ++ top ∷ []) - 1) a (rest ++ top ∷ []) ≡ rest ++ a ∷ top ∷ []
insert_below_top rest top a = rw (top_index rest top) (insert_at-length rest a (top ∷ []))
