-- ===== src/Layout/Tree/Built.antt =====
-- src/layout/tree.rs: the ids in a tree that `LayoutTree::new` builds, and the tiles that
-- `compute_geos` gives out of it.
use mathlib.Core.List.{append-nil}
use pinnacle.Common.{
  ℕ, suc, ◌+◌, ◌≤◌, ◌<◌, ◌≡◌, refl, false, List, [], ◌∷◌, ◌++◌, some, elem, Distinct, length,
  length-append, arith, ap, ◌∙◌, sym, subst,
}
use pinnacle.Geometry.{Rectangle}
use pinnacle.Layout.Tree.{
  LayoutNode, LayoutNodes, layout_node, nil, cons, TaffyNode, TaffyNodes, taffy, no_nodes, more,
  LeafDefaults, build_node, build_nodes, process_leaves, process_all, new_tree, children_of, id_of,
}
use pinnacle.Layout.Tree.Walk.{Placed, Rounding, compute_geos}
use pinnacle.Layout.Tree.Walk.Visits.{parents}
use pinnacle.Layout.Tree.Walk.Tiles.{tiles, tiles_of}
use pinnacle.Layout.Tree.Walk.Rounds.{leaves, owners, occurrences, compute_geos-all_tiles}

-- Growing numbers, from the first bound on and below the second.
abbrev pub Rising : ℕ → ℕ → List ℕ → Type 0
Rising lo hi [] = lo ≤ hi
Rising lo hi (x ∷ xs) = (lo ≤ x) × Rising (suc x) hi xs

Rising-append :
    (lo mid hi : ℕ) (xs ys : List ℕ) → Rising lo mid xs → Rising mid hi ys → Rising lo hi (xs ++ ys)
Rising-append lo mid hi [] [] r s = omega arith
Rising-append lo mid hi [] (y ∷ ys) r s = (omega arith, s.1)
Rising-append lo mid hi (x ∷ xs) ys r s = (r.0, Rising-append (suc x) mid hi xs ys r.1 s)

Rising-le : (lo hi hi' : ℕ) (xs : List ℕ) → Rising lo hi xs → hi ≤ hi' → Rising lo hi' xs
Rising-le lo hi hi' [] r h = omega arith
Rising-le lo hi hi' (x ∷ xs) r h = (r.0, Rising-le (suc x) hi hi' xs r.1 h)

Rising-above : (x lo hi : ℕ) (xs : List ℕ) → x < lo → Rising lo hi xs → elem x xs ≡ false
Rising-above x lo hi [] h r = refl
Rising-above x lo hi (y ∷ ys) h r = ground (arith, Rising-above x (suc y) hi ys (omega arith) r.1)

pub Rising-Distinct : (lo hi : ℕ) (xs : List ℕ) → Rising lo hi xs → Distinct xs
Rising-Distinct lo hi [] r = tt
Rising-Distinct lo hi (x ∷ xs) r =
    (Rising-above x (suc x) hi xs (omega arith) r.1, Rising-Distinct (suc x) hi xs r.1)

leaves-append : (ts us : List (ℕ × ℕ)) → leaves (ts ++ us) ≡ leaves ts ++ leaves us
leaves-append [] us = refl
leaves-append ((l, q) ∷ ts) us = ap (◌∷◌ l) (leaves-append ts us)

owners-append : (ts us : List (ℕ × ℕ)) → owners (ts ++ us) ≡ owners ts ++ owners us
owners-append [] us = refl
owners-append ((l, q) ∷ ts) us = ap (◌∷◌ q) (owners-append ts us)

module _ {F : Type 0} where
  -- The number of nodes of a layout that have no children.
  unfoldable mutual
    pub tile_count : LayoutNode F → ℕ
    tile_count (layout_node d nil) = 1
    tile_count (layout_node d (cons n ns)) = tile_count n + tile_counts ns

    pub tile_counts : LayoutNodes F → ℕ
    tile_counts nil = 0
    tile_counts (cons n ns) = tile_count n + tile_counts ns

  -- The ids of the nodes of a taffy tree that have no children.
  unfoldable mutual
    pub leaf_ids : TaffyNode F → List ℕ
    leaf_ids (taffy id style context no_nodes) = id ∷ []
    leaf_ids (taffy id style context (more n ns)) = leaf_ids n ++ leaf_ids_of ns

    pub leaf_ids_of : TaffyNodes F → List ℕ
    leaf_ids_of no_nodes = []
    leaf_ids_of (more n ns) = leaf_ids n ++ leaf_ids_of ns

  mutual
    unfolding build_node leaf_ids tile_count

    leaf_ids-build_node :
        (n : LayoutNode F) (k : ℕ)
        → Rising k (build_node n k).1 (leaf_ids (build_node n k).0)
          × (length (leaf_ids (build_node n k).0) ≡ tile_count n)
    leaf_ids-build_node (layout_node d nil) k = (omega arith, refl)
    leaf_ids-build_node (layout_node d (cons n ns)) k =
        let (r, l) = leaf_ids-build_nodes (cons n ns) k in
        (Rising-le k (build_nodes (cons n ns) k).1 _ _ r (omega arith), l)

    leaf_ids-build_nodes :
        (ns : LayoutNodes F) (k : ℕ)
        → Rising k (build_nodes ns k).1 (leaf_ids_of (build_nodes ns k).0)
          × (length (leaf_ids_of (build_nodes ns k).0) ≡ tile_counts ns)
    leaf_ids-build_nodes nil k = (omega arith, refl)
    leaf_ids-build_nodes (cons n ns) k =
        let one = leaf_ids-build_node n k in
        let rest = leaf_ids-build_nodes ns (build_node n k).1 in
        (
          Rising-append k (build_node n k).1 (build_nodes ns (build_node n k).1).1
              (leaf_ids (build_node n k).0) (leaf_ids_of (build_nodes ns (build_node n k).1).0)
              one.0 rest.0,
          omega (
            arith,
            one.1,
            rest.1,
            length-append (leaf_ids (build_node n k).0)
                (leaf_ids_of (build_nodes ns (build_node n k).1).0),
          ),
        )

  module _ (d : LeafDefaults F) where
    mutual
      unfolding process_leaves leaf_ids tiles

      process_leaves-tiles :
          (parent : ℕ) (t : TaffyNode F) (k : ℕ)
          → Rising k (process_leaves d t k).1 (leaves (tiles parent (process_leaves d t k).0))
            × (owners (tiles parent (process_leaves d t k).0) ≡ leaf_ids t)
      process_leaves-tiles parent (taffy id style context no_nodes) k = (omega arith, refl)
      process_leaves-tiles parent (taffy id style context (more n ns)) k =
          process_all-tiles id (more n ns) k

      process_all-tiles :
          (parent : ℕ) (ns : TaffyNodes F) (k : ℕ)
          → Rising k (process_all d ns k).1 (leaves (tiles_of parent (process_all d ns k).0))
            × (owners (tiles_of parent (process_all d ns k).0) ≡ leaf_ids_of ns)
      process_all-tiles parent no_nodes k = (omega arith, refl)
      process_all-tiles parent (more n ns) k =
          let one = process_leaves-tiles parent n k in
          let rest = process_all-tiles parent ns (process_leaves d n k).1 in
          let ts = tiles parent (process_leaves d n k).0 in
          let us = tiles_of parent (process_all d ns (process_leaves d n k).1).0 in
          (
            subst (Rising k (process_all d ns (process_leaves d n k).1).1)
                (sym (leaves-append ts us))
                (Rising-append k (process_leaves d n k).1
                  (process_all d ns (process_leaves d n k).1).1 (leaves ts) (leaves us) one.0
                  rest.0),
            owners-append ts us ∙ ap (λ l. l ++ owners us) one.1 ∙ ap (◌++◌ (leaf_ids n)) rest.1,
          )

  new_tree-root : (d : LeafDefaults F) (root : LayoutNode F) → (new_tree d root).root ≡ root
  unfolding new_tree
  new_tree-root d root = refl

  -- The tiles of the whole tree: the root has the processed tree as its one child.
  new_tree-tiles :
      (d : LeafDefaults F) (root : LayoutNode F) (parent : ℕ)
      → let ids = leaf_ids (build_node root 0).0 in
        Distinct (leaves (tiles parent (new_tree d root).taffy_root))
        × (owners (tiles parent (new_tree d root).taffy_root) ≡ ids)
        × Distinct ids
        × (length ids ≡ tile_count root)
  unfolding new_tree tiles
  new_tree-tiles d root parent =
      let built = build_node root 0 in
      let processed = process_leaves d built.0 built.1 in
      let ts = tiles processed.1 processed.0 in
      let (r, o) = process_leaves-tiles d processed.1 built.0 built.1 in
      let (s, l) = leaf_ids-build_node root 0 in
      (
        subst Distinct (sym (leaves-append ts [] ∙ append-nil (leaves ts)))
            (Rising-Distinct built.1 processed.1 (leaves ts) r),
        owners-append ts [] ∙ append-nil (owners ts) ∙ o,
        Rising-Distinct 0 built.1 (leaf_ids built.0) s,
        l,
      )

  -- The layout of a client, whatever the order in which its tree is traversed: with more rounds than
  -- it has tiles, the loop ends by itself, and gives out one geometry for each of them, and no others.
  pub compute_geos_lem :
      (rounding : Rounding F) (layout : ℕ → Placed F) (d : LeafDefaults F) (root : LayoutNode F)
      (child : LayoutNode F) (rest : LayoutNodes F) (n : ℕ)
      → children_of root ≡ cons child rest
      → tile_count root < n
      → (gs : List (Rectangle × ℕ)) × (compute_geos rounding layout n (new_tree d root) ≡ some gs)
        × (length gs ≡ tile_count root)
        × ((a : ℕ) → occurrences a (parents gs) ≡ occurrences a (leaf_ids (build_node root 0).0))
        × Distinct (leaf_ids (build_node root 0).0)
  compute_geos_lem rounding layout d root child rest n e h =
      let (a, b, c, f) = new_tree-tiles d root (id_of (new_tree d root).taffy_root) in
      let (gs, r, s, l) =
        compute_geos-all_tiles rounding layout (new_tree d root) n child rest
          (ap children_of (new_tree-root d root) ∙ e) a
          (omega (arith, f, ap (λ (xs : List ℕ). length xs) b)) in
      (
        gs,
        r,
        omega (arith, l, f, ap (λ (xs : List ℕ). length xs) b),
        λ x. s x ∙ ap (occurrences x) b,
        c,
      )
