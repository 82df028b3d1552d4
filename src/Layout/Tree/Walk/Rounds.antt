-- ===== src/Layout/Tree/Walk/Rounds.antt =====
-- src/layout/tree.rs: the rounds of `compute_geos` come to an end and give out every tile once.
use pinnacle.Common.{
  ℕ, zero, suc, ◌+◌, ◌<◌, ◌≡◌, refl, ◌⊎◌, inl, inr, true, false, List, [], ◌∷◌, ◌++◌, some, elem,
  Distinct, length, length-append, if◌then◌else◌, ◌==◌, ==_refl, arith, Bool-cases, ap, ◌∙◌, subst,
}
use pinnacle.Geometry.{Rectangle}
use pinnacle.Layout.Tree.{LayoutTree, LayoutNode, LayoutNodes, cons, children_of, id_of}
use pinnacle.Layout.Tree.Walk.{
  Walk, Placed, Rounding, count_one, round, rounds, start, compute_geos,
}
use pinnacle.Layout.Tree.Walk.Visits.{parents, In, Takes, open_in}
use pinnacle.Layout.Tree.Walk.Tiles.{tiles, compute_geos_rec-IsSound, compute_geos_rec-IsComplete}

-- How often a number stands in a list.
abbrev pub occurrences : ℕ → List ℕ → ℕ
occurrences a [] = 0
occurrences a (x ∷ xs) = (if x == a then 1 else 0) + occurrences a xs

pub occurrences-append :
    (a : ℕ) (xs ys : List ℕ) → occurrences a (xs ++ ys) ≡ occurrences a xs + occurrences a ys
occurrences-append a [] ys = omega arith
occurrences-append a (x ∷ xs) ys = omega (arith, occurrences-append a xs ys)

abbrev pub leaves : List (ℕ × ℕ) → List ℕ
leaves [] = []
leaves ((leaf, parent) ∷ ts) = leaf ∷ leaves ts

abbrev pub owners : List (ℕ × ℕ) → List ℕ
owners [] = []
owners ((leaf, parent) ∷ ts) = parent ∷ owners ts

length-parents : (gs : List (Rectangle × ℕ)) → length (parents gs) ≡ length gs
length-parents [] = refl
length-parents ((g, q) ∷ gs) = ap suc (length-parents gs)

-- The parents of the tiles that were not given out.
abbrev pub left_over : List (ℕ × ℕ) → List ℕ → List ℕ
left_over [] done = []
left_over ((leaf, parent) ∷ ts) done =
    let rest = left_over ts done in if elem leaf done then rest else parent ∷ rest

left_over-nothing_done : (ts : List (ℕ × ℕ)) → left_over ts [] ≡ owners ts
left_over-nothing_done [] = refl
left_over-nothing_done ((l, q) ∷ ts) = ap (◌∷◌ q) (left_over-nothing_done ts)

left_over-absent :
    (ts : List (ℕ × ℕ)) (l : ℕ) (done : List ℕ)
    → elem l (leaves ts) ≡ false
    → left_over ts (l ∷ done) ≡ left_over ts done
left_over-absent [] l done h = refl
left_over-absent ((m, q) ∷ ts) l done h = ground (arith, left_over-absent ts l done)

In-leaves : (ts : List (ℕ × ℕ)) (l q : ℕ) → In ts (l, q) → elem l (leaves ts) ≡ true
In-leaves [] l q h = absurd h
In-leaves ((m, p) ∷ ts) l q (inl e) = ground (arith, ap (λ (t : ℕ × ℕ). t.0) e)
In-leaves ((m, p) ∷ ts) l q (inr h) = ground (arith, In-leaves ts l q h)

left_over-take :
    (ts : List (ℕ × ℕ)) (l q a : ℕ) (done : List ℕ)
    → Distinct (leaves ts)
    → In ts (l, q)
    → elem l done ≡ false
    → (occurrences a (left_over ts done)
        ≡ (if q == a then 1 else 0) + occurrences a (left_over ts (l ∷ done)))
      × (length (left_over ts done) ≡ suc (length (left_over ts (l ∷ done))))
left_over-take [] l q a done d i n = absurd i
left_over-take ((m, p) ∷ ts) l q a done d (inl e) n =
    let same_leaf : m ≡ l = ap (λ (t : ℕ × ℕ). t.0) e in
    let same_parent : p ≡ q = ap (λ (t : ℕ × ℕ). t.1) e in
    let absent : elem l (leaves ts) ≡ false =
      subst (λ k. elem k (leaves ts) ≡ false) same_leaf d.0 in
    let rest = left_over-absent ts l done absent in
    ground (arith, rest, same_leaf, same_parent, n, ==_refl l)
left_over-take ((m, p) ∷ ts) l q a done d (inr i) n =
    let there = In-leaves ts l q i in
    elim (Bool-cases (m == l)) [
      | inl e ↦ ground (arith, e, there)
      | inr e ↦ let rest = left_over-take ts l q a done d.1 i n in ground (arith, e, rest)
    ]

open_in-left_over :
    (ts : List (ℕ × ℕ)) (w : Walk) → open_in ts w ≡ false → left_over ts w.node_assigned ≡ []
open_in-left_over [] w h = refl
open_in-left_over ((l, q) ∷ ts) w h = ground (arith, open_in-left_over ts w)

open_in-empty :
    (ts : List (ℕ × ℕ)) (w : Walk)
    → open_in ts w ≡ true
    → (length (left_over ts w.node_assigned) ≡ 0)
    → ⊥
open_in-empty [] w h e = ground (arith, h)
open_in-empty ((l, q) ∷ ts) w h e = ground (arith, open_in-empty ts w)

module _ {F : Type 0} (rounding : Rounding F) (layout : ℕ → Placed F) (t : LayoutTree F) where
  abbrev pub all_tiles : List (ℕ × ℕ)
  all_tiles = tiles (id_of t.taffy_root) t.taffy_root

  round-cases :
      (w : Walk)
      → (round rounding layout t w ≡ (false, w)) ⊎ Takes all_tiles w (round rounding layout t w)
  unfolding round
  round-cases w = compute_geos_rec-IsSound rounding layout (id_of t.taffy_root) t.taffy_root _ _ _ w

  round-fires : (w : Walk) → open_in all_tiles w ≡ true → (round rounding layout t w).0 ≡ true
  unfolding round
  round-fires w h =
      compute_geos_rec-IsComplete rounding layout (id_of t.taffy_root) t.taffy_root _ _ _ w h

  -- What the rounds come to.
  abbrev GivenOut : ℕ → Walk → Type 0
  GivenOut n w =
      (r : Walk) × (rounds rounding layout n t w ≡ some r)
      × ((a : ℕ)
          → occurrences a (parents r.geos)
            ≡ occurrences a (parents w.geos) + occurrences a (left_over all_tiles w.node_assigned))
      × (length r.geos ≡ length w.geos + length (left_over all_tiles w.node_assigned))

  rounds_stop :
      (n : ℕ) (w : Walk)
      → round rounding layout t w ≡ (false, w)
      → rounds rounding layout (suc n) t w ≡ some w
  unfolding rounds
  rounds_stop n w e = rw e refl

  rounds_go :
      (n : ℕ) (w : Walk)
      → (round rounding layout t w).0 ≡ true
      → rounds rounding layout (suc n) t w
        ≡ rounds rounding layout n t (count_one (id_of t.taffy_root) (round rounding layout t w).1)
  unfolding rounds
  rounds_go n w e = rw e refl

  rounds-GivenOut :
      (n : ℕ) (w : Walk)
      → Distinct (leaves all_tiles)
      → length (left_over all_tiles w.node_assigned) < n
      → GivenOut n w
  rounds-GivenOut zero w d h = absurd (omega arith)
  rounds-GivenOut (suc n) w d h = elim (round-cases w) [
    | inl e ↦ elim (Bool-cases (open_in all_tiles w)) [
      | inl o ↦ absurd (ground (arith, e, round-fires w o))
      | inr o ↦ (
        w,
        rounds_stop n w e,
        λ a. omega (arith, ap (occurrences a) (open_in-left_over all_tiles w o)),
        omega (arith, ap (λ (xs : List ℕ). length xs) (open_in-left_over all_tiles w o)),
      )
    ]
    | inr (l, q, i, fresh, fired, done, gave) ↦
        let w' = count_one (id_of t.taffy_root) (round rounding layout t w).1 in
        let take = λ (a : ℕ). left_over-take all_tiles l q a w.node_assigned d i fresh in
        let left = ap (left_over all_tiles) done in
        let (r, e, f, g) =
          rounds-GivenOut n w' d
            (omega (arith, ap (λ (xs : List ℕ). length xs) left, (take 0).1)) in
        (
          r,
          rounds_go n w fired ∙ e,
          λ a. omega (
            arith,
            f a,
            (take a).0,
            ap (occurrences a) left,
            ap (occurrences a) gave,
            occurrences-append a (parents w.geos) (q ∷ []),
          ),
          omega (
            arith,
            g,
            (take 0).1,
            ap (λ (xs : List ℕ). length xs) left,
            ap (λ (xs : List ℕ). length xs) gave,
            length-append (parents w.geos) (q ∷ []),
            length-parents w.geos,
            length-parents w'.geos,
          ),
        )
  ]

  -- The loop ends by itself, and what it gives out are all the tiles.
  pub compute_geos-all_tiles :
      (n : ℕ) (child : LayoutNode F) (rest : LayoutNodes F)
      → children_of t.root ≡ cons child rest
      → Distinct (leaves all_tiles)
      → length (owners all_tiles) < n
      → (gs : List (Rectangle × ℕ)) × (compute_geos rounding layout n t ≡ some gs)
        × ((a : ℕ) → occurrences a (parents gs) ≡ occurrences a (owners all_tiles))
        × (length gs ≡ length (owners all_tiles))
  unfolding compute_geos
  compute_geos-all_tiles n child rest e d h =
      let fresh = left_over-nothing_done all_tiles in
      let (r, f, g, l) =
        rounds-GivenOut n (start rounding layout) d
          (omega (arith, ap (λ (xs : List ℕ). length xs) fresh)) in
      (
        r.geos,
        rw (e, f, compute_geos) refl,
        λ a. omega (arith, g a, ap (occurrences a) fresh),
        omega (arith, l, ap (λ (xs : List ℕ). length xs) fresh),
      )
