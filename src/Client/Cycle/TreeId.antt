-- ===== src/Client/Cycle/TreeId.antt =====
-- api/rust/src/layout/generators.rs: the id of the tree that `Cycle` makes.
use pinnacle.Common.{◌<◌, ◌≡◌, arith}
use pinnacle.Client.Cycle.{Cycle, or_default, index_for, current_tree_id}

module _ {T : Type 0} where
  pub current_tree_id_lem :
      (c d : Cycle T)
      → or_default c.current_tag < 65536
      → index_for c (or_default c.current_tag) < 65535
      → or_default d.current_tag < 65536
      → index_for d (or_default d.current_tag) < 65535
      → (0 < current_tree_id c)
        × (current_tree_id c < 4294967296)
        × (current_tree_id c ≡ current_tree_id d
            → (or_default c.current_tag ≡ or_default d.current_tag)
              × (index_for c (or_default c.current_tag) ≡ index_for d (or_default d.current_tag)))
  unfolding current_tree_id
  current_tree_id_lem c d hc hi hd hj =
      (omega arith, omega arith, λ e. (omega (arith, e), omega (arith, e)))
