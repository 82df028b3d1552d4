-- ===== src/Client/Cycle.antt =====
-- api/rust/src/layout/generators.rs: `Cycle`, which keeps a layout for each tag. `T` is a generator,
-- and the map of indices is an association list.
pub mod Laws
pub mod Reached
pub mod TreeId
use pinnacle.Common.{
  ℕ, zero, suc, ◌+◌, ◌*◌, ◌-◌, ◌%◌, ◌<◌, ◌≡◌, List, [], ◌∷◌, Option, none, some, leb, length,
  get_elem?, lookup, insert_entry, if◌then◌else◌,
}

pub record Cycle (T : Type 0) : Type 0 where
  pub layouts : List T
  pub tag_indices : List (ℕ × ℕ)
  pub current_tag : Option ℕ

abbrev pub or_default : Option ℕ → ℕ
or_default none = 0
or_default (some n) = n

-- The next index, and 0 past the end.
abbrev pub after : ℕ → ℕ → ℕ
after len i = if leb len (suc i) then 0 else suc i

-- `checked_sub(1)`, and the last index where that fails.
abbrev pub before : ℕ → ℕ → ℕ
before len zero = len - 1
before len (suc i) = i

module _ {T : Type 0} where
  abbrev pub new_cycle : List T → Cycle T
  new_cycle layouts = record { layouts = layouts; tag_indices = []; current_tag = none }

  -- `self.tag_indices.get(&tag.id).copied().unwrap_or_default()`; also what `entry(tag.id).or_default()`
  -- finds.
  abbrev pub index_for : Cycle T → ℕ → ℕ
  index_for c tag = or_default (lookup tag c.tag_indices)

  abbrev pub set_index : Cycle T → ℕ → ℕ → Cycle T
  set_index c tag index = record c { tag_indices = insert_entry tag index c.tag_indices }

  unfoldable pub cycle_layout_forward : Cycle T → ℕ → Cycle T
  cycle_layout_forward c tag = set_index c tag (after (length c.layouts) (index_for c tag))

  unfoldable pub cycle_layout_backward : Cycle T → ℕ → Cycle T
  cycle_layout_backward c tag = set_index c tag (before (length c.layouts) (index_for c tag))

  unfoldable pub current_layout : Cycle T → ℕ → Option T
  current_layout c tag = get_elem? c.layouts (index_for c tag)

  abbrev pub set_current_tag : Cycle T → ℕ → Cycle T
  set_current_tag c tag = record c { current_tag = some tag }

  -- A `u32`, as it comes out of a build that does not check for overflow.
  unfoldable pub current_tree_id : Cycle T → ℕ
  current_tree_id c =
      let tag_id = or_default c.current_tag in
      let layout_id = index_for c tag_id in
      (tag_id % 65536 + layout_id % 65536 * 65536 + 1) % 4294967296

  -- `layout`, where `of_layout` is that of the generators and `none` is `LayoutNode::new()`.
  abbrev pub layout_of : {N : Type 0} → (T → ℕ → N) → N → Cycle T → Option ℕ → ℕ → N
  layout_of of_layout empty c none n = empty
  layout_of of_layout empty c (some tag) n = elim (get_elem? c.layouts (index_for c tag)) [
    | none ↦ empty
    | some l ↦ of_layout l n
  ]
