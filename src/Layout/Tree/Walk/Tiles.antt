-- ===== src/Layout/Tree/Walk/Tiles.antt =====
-- src/layout/tree.rs: a call of `compute_geos_rec` gives out one tile under its node that was not given
-- out before, if there is one, and does nothing otherwise.
use pinnacle.Common.{
  ℕ, ◌≡◌, refl, inl, inr, true, ◌||◌, List, [], ◌∷◌, ◌++◌, any, elem, first?, arith, Bool-cases,
  ◌∙◌,
}
use pinnacle.Layout.Tree.{TaffyNode, TaffyNodes, taffy, no_nodes, more}
use pinnacle.Layout.Tree.Walk.{
  Walk, Visit, Placed, Rounding, sort_by_index, values, promote, take_tile, overrides_of, rest_of,
  compute_geos_rec, visits,
}
use pinnacle.Layout.Tree.Walk.Visits.{
  Each, Each-sort_by_index, Each-promote, any-sort_by_index, any-promote, parents-append, In,
  open_in, IsSound, IsComplete, try_each-IsSound, try_each-fires,
}

module _ {F : Type 0} where
  -- The leaves under a node, left to right, each with its parent.
  unfoldable mutual
    pub tiles : (parent : ℕ) → TaffyNode F → List (ℕ × ℕ)
    tiles parent (taffy id style context no_nodes) = (id, parent) ∷ []
    tiles parent (taffy id style context (more n ns)) = tiles_of id (more n ns)

    pub tiles_of : (parent : ℕ) → TaffyNodes F → List (ℕ × ℕ)
    tiles_of parent no_nodes = []
    tiles_of parent (more n ns) = tiles parent n ++ tiles_of parent ns

In-left : (ts us : List (ℕ × ℕ)) (t : ℕ × ℕ) → In ts t → In (ts ++ us) t
In-left [] us t h = absurd h
In-left (x ∷ ts) us t (inl e) = inl e
In-left (x ∷ ts) us t (inr h) = inr (In-left ts us t h)

In-right : (ts us : List (ℕ × ℕ)) (t : ℕ × ℕ) → In us t → In (ts ++ us) t
In-right [] us t h = h
In-right (x ∷ ts) us t h = inr (In-right ts us t h)

open_in-append :
    (ts us : List (ℕ × ℕ)) (w : Walk) → open_in (ts ++ us) w ≡ (open_in ts w || open_in us w)
open_in-append [] us w = refl
open_in-append ((l, q) ∷ ts) us w = ground (arith, open_in-append ts us w)

module _ {F : Type 0} where
  IsSound-mono :
      (ts us : List (ℕ × ℕ)) (v : Visit F)
      → ((t : ℕ × ℕ) → In ts t → In us t)
      → IsSound ts v
      → IsSound us v
  IsSound-mono ts us v h s x y o w = elim (s x y o w) [
    | inl e ↦ inl e
    | inr (leaf, parent, i, a, b, c, d) ↦ inr (leaf, parent, h (leaf, parent) i, a, b, c, d)
  ]

  Each-IsSound-mono :
      (ts us : List (ℕ × ℕ)) (vs : List (Visit F))
      → ((t : ℕ × ℕ) → In ts t → In us t)
      → Each (IsSound ts) vs
      → Each (IsSound us) vs
  Each-IsSound-mono ts us [] h s = tt
  Each-IsSound-mono ts us (v ∷ vs) h s =
      (IsSound-mono ts us v h s.0, Each-IsSound-mono ts us vs h s.1)

  module _ (rounding : Rounding F) (layout : ℕ → Placed F) where
    take_tile-IsSound :
        (parent id : ℕ) → IsSound ((id, parent) ∷ []) (take_tile rounding layout parent id)
    take_tile-IsSound parent id x y o w = elim (Bool-cases (elem id w.node_assigned)) [
      | inl e ↦ inl (rw e refl)
      | inr e ↦ inr (id, parent, inl refl, e, rw e refl, rw e refl, rw e (parents-append w.geos _))
    ]

    take_tile-IsComplete :
        (parent id : ℕ) → IsComplete ((id, parent) ∷ []) (take_tile rounding layout parent id)
    take_tile-IsComplete parent id x y o w h = ground arith

    mutual
      unfolding compute_geos_rec tiles

      pub compute_geos_rec-IsSound :
          (parent : ℕ) (n : TaffyNode F)
          → IsSound (tiles parent n) (compute_geos_rec rounding layout parent n)
      compute_geos_rec-IsSound parent (taffy id style context no_nodes) x y o w =
          take_tile-IsSound parent id x y o w
      compute_geos_rec-IsSound parent (taffy id style context (more n ns)) x y o w =
          let os = overrides_of context (w.counters id) o in
          try_each-IsSound (tiles_of id (more n ns)) id
            (promote (first? os) (values (sort_by_index (visits rounding layout id (more n ns)))))
            (Each-promote (IsSound (tiles_of id (more n ns))) (first? os)
              (values (sort_by_index (visits rounding layout id (more n ns))))
              (Each-sort_by_index (IsSound (tiles_of id (more n ns)))
                (visits rounding layout id (more n ns)) (visits-IsSound id (more n ns))))
            _ _ (rest_of os) w

      visits-IsSound :
          (parent : ℕ) (ns : TaffyNodes F)
          → Each (IsSound (tiles_of parent ns)) (values (visits rounding layout parent ns))
      visits-IsSound parent no_nodes = tt
      visits-IsSound parent (more n ns) = (
        IsSound-mono (tiles parent n) (tiles parent n ++ tiles_of parent ns)
            (compute_geos_rec rounding layout parent n)
            (In-left (tiles parent n) (tiles_of parent ns)) (compute_geos_rec-IsSound parent n),
        Each-IsSound-mono (tiles_of parent ns) (tiles parent n ++ tiles_of parent ns)
            (values (visits rounding layout parent ns))
            (In-right (tiles parent n) (tiles_of parent ns)) (visits-IsSound parent ns),
      )

    mutual
      unfolding compute_geos_rec tiles

      pub compute_geos_rec-IsComplete :
          (parent : ℕ) (n : TaffyNode F)
          → IsComplete (tiles parent n) (compute_geos_rec rounding layout parent n)
      compute_geos_rec-IsComplete parent (taffy id style context no_nodes) x y o w h =
          take_tile-IsComplete parent id x y o w h
      compute_geos_rec-IsComplete parent (taffy id style context (more n ns)) x y o w h =
          let os = overrides_of context (w.counters id) o in
          let vs = visits rounding layout id (more n ns) in
          try_each-fires (tiles_of id (more n ns)) id
            (promote (first? os) (values (sort_by_index vs))) _ _ (rest_of os) w
            (Each-promote (IsSound (tiles_of id (more n ns))) (first? os)
              (values (sort_by_index vs))
              (Each-sort_by_index (IsSound (tiles_of id (more n ns))) vs
                (visits-IsSound id (more n ns))))
            (any-promote (λ v. (v _ _ (rest_of os) w).0) (first? os) (values (sort_by_index vs))
              ∙ any-sort_by_index (λ v. (v _ _ (rest_of os) w).0) vs
              ∙ visits-fire id (more n ns) _ _ (rest_of os) w h)

      visits-fire :
          (parent : ℕ) (ns : TaffyNodes F) (x y : F) (o : List ℕ) (w : Walk)
          → open_in (tiles_of parent ns) w ≡ true
          → any (λ v. (v x y o w).0) (values (visits rounding layout parent ns)) ≡ true
      visits-fire parent no_nodes x y o w h = h
      visits-fire parent (more n ns) x y o w h = elim (Bool-cases (open_in (tiles parent n) w)) [
        | inl e ↦ ground (arith, compute_geos_rec-IsComplete parent n x y o w e)
        | inr e ↦ ground (
          arith,
          open_in-append (tiles parent n) (tiles_of parent ns) w,
          visits-fire parent ns x y o w,
        )
      ]
