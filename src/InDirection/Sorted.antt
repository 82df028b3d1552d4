-- ===== src/InDirection/Sorted.antt =====
-- src/util/rect.rs: sorting keeps what a vector holds, and puts what is less far first.
use pinnacle.Common.{
  ◌≡◌, refl, ap, ◌∙◌, Bool, true, ◌&&◌, List, [], ◌∷◌, ◌++◌, ℕ, ◌+◌, ◌==◌, leb, retain,
  if◌then◌else◌, all, arith, some, get_elem?, suc, Bool-cases, inl, inr,
}
use pinnacle.Geometry.{Rectangle}
use pinnacle.InDirection.{Numbered, numbered, insert_by, sort_by, ids}

abbrev pub one_if : Bool → ℕ
one_if b = if b then 1 else 0

-- How often a number stands in a list.
abbrev pub times_in : ℕ → List ℕ → ℕ
times_in i [] = 0
times_in i (n ∷ ns) = one_if (n == i) + times_in i ns

abbrev pub of : ℕ → List Numbered → ℕ
of i es = times_in i (ids es)

pub of-append : (i : ℕ) (xs ys : List Numbered) → of i (xs ++ ys) ≡ of i xs + of i ys
of-append i [] ys = ground arith
of-append i (x ∷ xs) ys = ground (arith, of-append i xs ys)

pub of-insert_by :
    (key : Rectangle → ℕ) (i : ℕ) (e : Numbered) (xs : List Numbered)
    → of i (insert_by key e xs) ≡ one_if (e.0 == i) + of i xs
of-insert_by key i e [] = refl
of-insert_by key i e (x ∷ xs) = ground (arith, of-insert_by key i e xs)

pub of-sort_by :
    (key : Rectangle → ℕ) (i : ℕ) (es : List Numbered) → of i (sort_by key es) ≡ of i es
of-sort_by key i [] = refl
of-sort_by key i (e ∷ es) =
    of-insert_by key i e (sort_by key es) ∙ ap (λ k. one_if (e.0 == i) + k) (of-sort_by key i es)

-- Nothing stands before what is less far.
abbrev pub is_ascending : (Rectangle → ℕ) → List Numbered → Bool
is_ascending key [] = true
is_ascending key (e ∷ es) = all (λ x. leb (key e.1) (key x.1)) es && is_ascending key es

pub all-insert_by :
    (q : Numbered → Bool) (key : Rectangle → ℕ) (e : Numbered) (xs : List Numbered)
    → all q (insert_by key e xs) ≡ (q e && all q xs)
all-insert_by q key e [] = refl
all-insert_by q key e (x ∷ xs) = ground (arith, all-insert_by q key e xs)

pub all-sort_by :
    (q : Numbered → Bool) (key : Rectangle → ℕ) (xs : List Numbered)
    → all q (sort_by key xs) ≡ all q xs
all-sort_by q key [] = refl
all-sort_by q key (x ∷ xs) =
    all-insert_by q key x (sort_by key xs) ∙ ap (λ b. q x && b) (all-sort_by q key xs)

pub all_farther :
    (key : Rectangle → ℕ) (a b : ℕ) (xs : List Numbered)
    → leb a b ≡ true
    → all (λ x. leb b (key x.1)) xs ≡ true
    → all (λ x. leb a (key x.1)) xs ≡ true
all_farther key a b [] h e = refl
all_farther key a b (x ∷ xs) h e = ground (arith, h, e, all_farther key a b xs h)

pub ascending-insert_by :
    (key : Rectangle → ℕ) (e : Numbered) (xs : List Numbered)
    → is_ascending key xs ≡ true
    → is_ascending key (insert_by key e xs) ≡ true
ascending-insert_by key e [] h = refl
ascending-insert_by key e (x ∷ xs) h = ground (
  arith,
  h,
  all_farther key (key e.1) (key x.1) xs,
  all-insert_by (λ y. leb (key x.1) (key y.1)) key e xs,
  ascending-insert_by key e xs,
)

pub ascending-sort_by :
    (key : Rectangle → ℕ) (xs : List Numbered) → is_ascending key (sort_by key xs) ≡ true
ascending-sort_by key [] = refl
ascending-sort_by key (x ∷ xs) =
    ascending-insert_by key x (sort_by key xs) (ascending-sort_by key xs)

pub all-retain_self : (q : Numbered → Bool) (xs : List Numbered) → all q (retain q xs) ≡ true
all-retain_self q [] = refl
all-retain_self q (x ∷ xs) = ground (arith, all-retain_self q xs)

pub all-retain :
    (q p : Numbered → Bool) (xs : List Numbered) → all q xs ≡ true → all q (retain p xs) ≡ true
all-retain q p [] h = refl
all-retain q p (x ∷ xs) h = ground (arith, h, all-retain q p xs)

-- Every entry is a rectangle of the given ones under its own index.
abbrev pub AreOf : List Rectangle → List Numbered → Type 0
AreOf rects [] = Unit
AreOf rects (e ∷ es) = (get_elem? rects e.0 ≡ some e.1) × AreOf rects es

pub AreOf-retain :
    (rects : List Rectangle) (p : Numbered → Bool) (es : List Numbered)
    → AreOf rects es
    → AreOf rects (retain p es)
AreOf-retain rects p [] h = tt
AreOf-retain rects p (e ∷ es) (here, rest) = elim (Bool-cases (p e)) [
  | inl b ↦ rw b (here, AreOf-retain rects p es rest)
  | inr b ↦ rw b (AreOf-retain rects p es rest)
]

pub AreOf-insert_by :
    (rects : List Rectangle) (key : Rectangle → ℕ) (e : Numbered) (es : List Numbered)
    → get_elem? rects e.0 ≡ some e.1
    → AreOf rects es
    → AreOf rects (insert_by key e es)
AreOf-insert_by rects key e [] h k = (h, tt)
AreOf-insert_by rects key e (x ∷ xs) h (here, rest) = elim (Bool-cases (leb (key e.1) (key x.1))) [
  | inl b ↦ rw b (h, (here, rest))
  | inr b ↦ rw b (here, AreOf-insert_by rects key e xs h rest)
]

pub AreOf-sort_by :
    (rects : List Rectangle) (key : Rectangle → ℕ) (es : List Numbered)
    → AreOf rects es
    → AreOf rects (sort_by key es)
AreOf-sort_by rects key [] h = tt
AreOf-sort_by rects key (e ∷ es) (here, rest) =
    AreOf-insert_by rects key e (sort_by key es) here (AreOf-sort_by rects key es rest)

-- What `numbered` gives are the rectangles that stand after the first ones.
pub AreOf-numbered :
    (rects : List Rectangle) (n : ℕ) (rest : List Rectangle)
    → ((k : ℕ) → get_elem? rects (n + k) ≡ get_elem? rest k)
    → AreOf rects (numbered n rest)
AreOf-numbered rects n [] h = tt
AreOf-numbered rects n (r ∷ rest) h = (
  ap (get_elem? rects) (omega arith) ∙ h 0,
  AreOf-numbered rects (suc n) rest (λ k. ap (get_elem? rects) (omega arith) ∙ h (suc k)),
)
