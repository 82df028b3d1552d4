-- ===== src/Layout/Tree/Walk.antt =====
-- src/layout/tree.rs: `compute_geos`, which gives the tiles of a layout out, one round for each window.
-- The layout of each node is taffy's, and sums of `f64`s are a parameter. Sets and maps of node ids are
-- lists and functions.
pub mod Visits
pub mod Tiles
pub mod Rounds
use pinnacle.Common.{
  ℕ, zero, suc, ◌+◌, ◌%◌, Bool, true, false, List, [], ◌∷◌, ◌++◌, Option, none, some, map, first?,
  get_elem?, lookup, elem, leb, if◌then◌else◌, ◌==◌,
}
use pinnacle.Geometry.{Rectangle}
use pinnacle.State.{update}
use pinnacle.Layout.Tree.{
  NodeContext, TaffyNode, TaffyNodes, taffy, no_nodes, more, LayoutTree, LayoutNode, LayoutNodes,
  layout_node, nil, cons, data_of, children_of, id_of,
}

-- What `compute_geos_rec` changes.
pub record Walk : Type 0 where
  pub geos : List (Rectangle × ℕ)
  pub node_assigned : List ℕ
  pub counters : ℕ → ℕ

-- What taffy computed of a node, relative to its parent.
pub record Placed (F : Type 0) : Type 0 where
  pub x : F
  pub y : F
  pub width : F
  pub height : F

-- `f64`: a sum, and a rectangle rounded to `i32`s.
pub record Rounding (F : Type 0) : Type 0 where
  pub zero_f64 : F
  pub plus : F → F → F
  pub to_i32_round : F → F → F → F → Rectangle

-- `sort_by` on the traversal index, which is stable.
abbrev pub sorted_in {ℓ} : {A : Type ℓ} → ℕ × A → List (ℕ × A) → List (ℕ × A)
sorted_in (k, a) [] = (k, a) ∷ []
sorted_in (k, a) ((j, b) ∷ rest) =
    let later = sorted_in (k, a) rest in if leb k j then (k, a) ∷ (j, b) ∷ rest else (j, b) ∷ later

abbrev pub sort_by_index {ℓ} : {A : Type ℓ} → List (ℕ × A) → List (ℕ × A)
sort_by_index [] = []
sort_by_index ((k, a) ∷ rest) = sorted_in (k, a) (sort_by_index rest)

abbrev pub values {ℓ} : {A : Type ℓ} → List (ℕ × A) → List A
values [] = []
values ((k, a) ∷ rest) = a ∷ values rest

abbrev pub remove_at {ℓ} : {A : Type ℓ} → ℕ → List A → List A
remove_at i [] = []
remove_at zero (x ∷ xs) = xs
remove_at (suc i) (x ∷ xs) = x ∷ remove_at i xs

-- The child that an override names is moved to the front, if there is such a child.
abbrev pub promote {ℓ} : {A : Type ℓ} → Option ℕ → List A → List A
promote none xs = xs
promote (some i) xs = elim (get_elem? xs i) [ none ↦ xs | some x ↦ x ∷ remove_at i xs ]

-- `split_first` with `unwrap_or_default` on the rest.
abbrev pub rest_of : List ℕ → List ℕ
rest_of [] = []
rest_of (i ∷ rest) = rest

-- `.filter(|overrides| !overrides.is_empty()).map_or(inherited, |v| v)`.
abbrev pub or_inherited : Option (List ℕ) → List ℕ → List ℕ
or_inherited none inherited = inherited
or_inherited (some []) inherited = inherited
or_inherited (some (i ∷ is)) inherited = i ∷ is

-- `*counters.entry(id).or_default() += 1`, a `u32`.
abbrev pub count_one : ℕ → Walk → Walk
count_one id w = record w { counters = update w.counters id ((w.counters id + 1) % 4294967296) }

-- A call of `compute_geos_rec` on a node: offsets, overrides, and what was done before.
abbrev pub Visit : Type 0 → Type 0
Visit F = F → F → List ℕ → Walk → Bool × Walk

module _ {F : Type 0} where
  abbrev pub overrides_of : Option (NodeContext F) → ℕ → List ℕ → List ℕ
  overrides_of none n inherited = inherited
  overrides_of (some c) n inherited = or_inherited (lookup n c.traversal_overrides) inherited

  -- Only the root has no context, and it is no child.
  abbrev pub index_of : TaffyNode F → ℕ
  index_of (taffy id style none children) = 0
  index_of (taffy id style (some c) children) = c.traversal_index

  -- The loop over the children.
  abbrev pub try_each : ℕ → List (Visit F) → Visit F
  try_each id [] x y overrides w = (false, w)
  try_each id (v ∷ vs) x y overrides w =
      let next = try_each id vs x y overrides (v x y overrides w).1 in
      if (v x y overrides w).0 then (true, count_one id (v x y overrides w).1) else next

  module _ (rounding : Rounding F) (layout : ℕ → Placed F) where
    abbrev pub take_tile : (parent id : ℕ) → Visit F
    take_tile parent id x y overrides w = if elem id w.node_assigned then (false, w) else (
      true,
      count_one id (record w {
        node_assigned = id ∷ w.node_assigned;
        geos =
            w.geos
            ++ (
              rounding.to_i32_round (rounding.plus (layout id).x x) (rounding.plus (layout id).y y)
                  (layout id).width (layout id).height,
              parent,
            )
              ∷ [];
      }),
    )

    unfoldable mutual
      pub compute_geos_rec : (parent : ℕ) → TaffyNode F → Visit F
      compute_geos_rec parent (taffy id style context no_nodes) x y inherited w =
          take_tile parent id x y inherited w
      compute_geos_rec parent (taffy id style context (more n ns)) x y inherited w =
          let overrides = overrides_of context (w.counters id) inherited in
          try_each id (promote (first? overrides) (values (sort_by_index (visits id (more n ns)))))
            (rounding.plus (layout id).x x) (rounding.plus (layout id).y y) (rest_of overrides) w

      pub visits : (parent : ℕ) → TaffyNodes F → List (ℕ × Visit F)
      visits parent no_nodes = []
      visits parent (more n ns) = (index_of n, compute_geos_rec parent n) ∷ visits parent ns

    -- One round of the loop: the overrides that the root of the layout has for the root's counter. The
    -- root of the taffy tree has a child, so that no tile is its own.
    unfoldable pub round : LayoutTree F → Walk → Bool × Walk
    unfolding compute_geos_rec
    round t w =
        let root = id_of t.taffy_root in
        let overrides =
          0 ∷ or_inherited (lookup (w.counters root) (data_of t.root).traversal_overrides) [] in
        compute_geos_rec root t.taffy_root rounding.zero_f64 rounding.zero_f64 overrides w

    -- The loop, with at most so many rounds; `none` if they were not enough.
    unfoldable pub rounds : ℕ → LayoutTree F → Walk → Option Walk
    unfolding round
    rounds zero t w = none
    rounds (suc n) t w =
        let next = rounds n t (count_one (id_of t.taffy_root) (round t w).1) in
        if (round t w).0 then next else some (round t w).1

    abbrev pub start : Walk
    start = record { geos = []; node_assigned = []; counters = λ id. 0 }

    abbrev geos_of : Option Walk → Option (List (Rectangle × ℕ))
    geos_of none = none
    geos_of (some w) = some w.geos

    unfoldable pub compute_geos : ℕ → LayoutTree F → Option (List (Rectangle × ℕ))
    unfolding rounds
    compute_geos n t = elim (children_of t.root) [
      | nil ↦ some []
      | cons child rest ↦ geos_of (rounds n t start)
    ]
