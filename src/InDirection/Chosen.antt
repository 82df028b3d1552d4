-- ===== src/InDirection/Chosen.antt =====
-- src/util/rect.rs: which rectangles `closest_in_dir` returns.
use pinnacle.Common.{
  ◌≡◌, refl, ap, ap₂, ◌∙◌, inl, inr, Bool, true, false, Bool-cases, ◌&&◌, List, [], ◌∷◌, ◌++◌, ℕ,
  zero, suc, ◌+◌, ◌==◌, leb, retain, Option, none, some, get_elem?, all, arith,
}
use pinnacle.Geometry.{Rectangle}
use pinnacle.InDirection.Sorted.{
  one_if, times_in, of, of-append, of-sort_by, is_ascending, all-sort_by, ascending-sort_by,
  all-retain_self, all-retain, AreOf, AreOf-retain, AreOf-sort_by, AreOf-numbered,
}
use pinnacle.InDirection.{
  Direction, Measures, Class, Numbered, numbered, ids, is_candidate, is_class, class_of, is_kept,
  apart, vector_of, closest_in_dir,
}

module _ (m : Measures) (dir : Direction) (rect : Rectangle) where
  -- Whether a rectangle is returned, told by itself.
  abbrev pub is_chosen : Rectangle → Bool
  is_chosen other = is_candidate dir rect other && is_kept m dir rect (class_of m rect other) other

  abbrev kept : Class → List Numbered → List Numbered
  kept c es =
      retain (λ e. is_kept m dir rect c e.1) (retain (λ e. is_class c (class_of m rect e.1)) es)

  abbrev fitting : List Numbered → List Numbered
  fitting = retain (λ e. is_kept m dir rect (class_of m rect e.1) e.1)

  kept_step :
      (c : Class) (i : ℕ) (e : Numbered) (es : List Numbered)
      → of i (kept c (e ∷ es))
        ≡ one_if (is_class c (class_of m rect e.1) && (is_kept m dir rect c e.1 && (e.0 == i)))
          + of i (kept c es)
  kept_step c i e es = elim (Bool-cases (is_class c (class_of m rect e.1))) [
    | inl h ↦ rw (h) ground arith
    | inr h ↦ rw (h) ground arith
  ]

  of_class :
      (c : Class) (keep : Class → Bool) (b : Bool)
      → one_if (is_class Class.inside c && (keep Class.inside && b))
          + one_if (is_class Class.overlap c && (keep Class.overlap && b))
          + one_if (is_class Class.enclosing c && (keep Class.enclosing && b))
          + one_if (is_class Class.no_overlap c && (keep Class.no_overlap && b))
        ≡ one_if (keep c && b)
  of_class Class.inside keep b = ground arith
  of_class Class.overlap keep b = ground arith
  of_class Class.enclosing keep b = ground arith
  of_class Class.no_overlap keep b = ground arith

  of_four :
      (i : ℕ) (es : List Numbered)
      → of i (kept Class.inside es)
          + of i (kept Class.overlap es)
          + of i (kept Class.enclosing es)
          + of i (kept Class.no_overlap es)
        ≡ of i (fitting es)
  of_four i [] = refl
  of_four i (e ∷ es) = ground (
    arith,
    kept_step Class.inside i e es,
    kept_step Class.overlap i e es,
    kept_step Class.enclosing i e es,
    kept_step Class.no_overlap i e es,
    of_class (class_of m rect e.1) (λ c. is_kept m dir rect c e.1) (e.0 == i),
    of_four i es,
  )

  candidates :
      (es : List Numbered)
      → fitting (retain (λ e. is_candidate dir rect e.1) es) ≡ retain (λ e. is_chosen e.1) es
  candidates [] = refl
  candidates (e ∷ es) = ground (arith, candidates es)

abbrev pub one_chosen : (Rectangle → Bool) → Option Rectangle → ℕ
one_chosen p none = 0
one_chosen p (some r) = one_if (p r)

module _ (p : Rectangle → Bool) where
  below :
      (i n : ℕ) (rs : List Rectangle)
      → leb n i ≡ false
      → of i (retain (λ e. p e.1) (numbered n rs)) ≡ 0
  below i n [] h = refl
  below i n (r ∷ rs) h = ground (arith, h, below i (suc n) rs)

  of_next :
      (k n : ℕ) (rs : List Rectangle)
      → of (n + suc k) (retain (λ e. p e.1) (numbered (suc n) rs))
        ≡ of (suc n + k) (retain (λ e. p e.1) (numbered (suc n) rs))
  of_next k n rs = ap (λ j. of j (retain (λ e. p e.1) (numbered (suc n) rs))) (omega arith)

  of_numbered :
      (k n : ℕ) (rs : List Rectangle)
      → of (n + k) (retain (λ e. p e.1) (numbered n rs)) ≡ one_chosen p (get_elem? rs k)
  of_numbered k n [] = refl
  of_numbered zero n (r ∷ rs) = ground (arith, below (n + 0) (suc n) rs)
  of_numbered (suc k) n (r ∷ rs) = ground (arith, of_next k n rs ∙ of_numbered k (suc n) rs)

module _ (m : Measures) (rect : Rectangle) (rects : List Rectangle) (dir : Direction) where
  abbrev beyond : List Numbered
  beyond = retain (λ e. is_candidate dir rect e.1) (numbered 0 rects)

  abbrev vector : Class → List Numbered
  vector c = vector_of m dir rect c beyond

  of_vector : (c : Class) (i : ℕ) → of i (vector c) ≡ of i (kept m dir rect c beyond)
  of_vector c i = of-sort_by (apart m rect c) i (kept m dir rect c beyond)

  abbrev vectors : List Numbered
  vectors =
      vector Class.inside
      ++ vector Class.overlap
      ++ vector Class.enclosing
      ++ vector Class.no_overlap

  closest_lem : closest_in_dir m rect rects dir ≡ ids vectors
  unfolding closest_in_dir
  closest_lem = refl

  of_vectors : (i : ℕ) → of i vectors ≡ of i (fitting m dir rect beyond)
  of_vectors i =
      of-append i (vector Class.inside ++ vector Class.overlap ++ vector Class.enclosing)
        (vector Class.no_overlap)
      ∙ ap₂ (λ j k. j + k)
          (of-append i (vector Class.inside ++ vector Class.overlap) (vector Class.enclosing)
            ∙ ap₂ (λ j k. j + k)
                (of-append i (vector Class.inside) (vector Class.overlap)
                  ∙ ap₂ (λ j k. j + k) (of_vector Class.inside i) (of_vector Class.overlap i))
                (of_vector Class.enclosing i))
          (of_vector Class.no_overlap i)
      ∙ of_four m dir rect i beyond

  of_closest :
      (i : ℕ)
      → times_in i (closest_in_dir m rect rects dir)
        ≡ one_chosen (is_chosen m dir rect) (get_elem? rects i)
  of_closest i =
      ap (times_in i) closest_lem
      ∙ of_vectors i
      ∙ ap (of i) (candidates m dir rect (numbered 0 rects))
      ∙ ap (λ j. of j (retain (λ e. is_chosen m dir rect e.1) (numbered 0 rects))) (omega arith)
      ∙ of_numbered (is_chosen m dir rect) i 0 rects

  vector-AreOf : (c : Class) → AreOf rects (vector c)
  vector-AreOf c = AreOf-sort_by rects (apart m rect c) (kept m dir rect c beyond) (
      AreOf-retain rects (λ e. is_kept m dir rect c e.1)
        (retain (λ e. is_class c (class_of m rect e.1)) beyond)
        (AreOf-retain rects (λ e. is_class c (class_of m rect e.1)) beyond
          (AreOf-retain rects (λ e. is_candidate dir rect e.1) (numbered 0 rects)
            (AreOf-numbered rects 0 rects (λ k. ap (get_elem? rects) (omega arith))))))

  -- Rectangles of the given ones, under their indices, that are of one class, the least far first.
  abbrev pub InOrder : Class → List Numbered → Type 0
  InOrder c es =
      AreOf rects es
      × (all (λ e. is_class c (class_of m rect e.1)) es ≡ true)
      × (is_ascending (apart m rect c) es ≡ true)

  vector-InOrder : (c : Class) → InOrder c (vector c)
  vector-InOrder c = (
    vector-AreOf c,
    all-sort_by (λ e. is_class c (class_of m rect e.1)) (apart m rect c) (kept m dir rect c beyond)
        ∙ all-retain (λ e. is_class c (class_of m rect e.1)) (λ e. is_kept m dir rect c e.1)
            (retain (λ e. is_class c (class_of m rect e.1)) beyond)
            (all-retain_self (λ e. is_class c (class_of m rect e.1)) beyond),
    ascending-sort_by (apart m rect c) (kept m dir rect c beyond),
  )

  -- `closest_in_dir` gives out the index of each rectangle that is another than the given one, has its
  -- center in the direction and passes the test of its class, once, and no other number; those inside
  -- the rectangle come first, then those that overlap it, those that enclose it and the rest, the least
  -- far first in each class.
  pub closest_in_dir_lem :
      ((i : ℕ)
        → times_in i (closest_in_dir m rect rects dir)
          ≡ one_chosen (is_chosen m dir rect) (get_elem? rects i))
      × ((vs : Class → List Numbered) × (closest_in_dir m rect rects dir
            ≡ ids
                (vs Class.inside ++ vs Class.overlap ++ vs Class.enclosing ++ vs Class.no_overlap))
          × ((c : Class) → InOrder c (vs c)))
  closest_in_dir_lem = (of_closest, (vector, closest_lem, vector-InOrder))
