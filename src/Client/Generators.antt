-- ===== src/Client/Generators.antt =====
-- api/rust/src/layout/generators.rs: the layouts that come with the client library.
pub mod Tiles
pub mod Fair
pub mod Given
pub mod Shown
use Prim.Native.String.{String}
use pinnacle.Common.{
  ℕ, zero, suc, ◌+◌, ◌-◌, ◌/◌, ◌%◌, Bool, true, false, List, [], ◌∷◌, ◌++◌, Option, none, some, leb,
  min, if◌then◌else◌, ◌==◌,
}
use pinnacle.Layout.Tree.{Label, text, numbered}
use pinnacle.Client.Node.{
  LayoutDir, row, column, Gaps, LayoutNodeInner, Node, Nodes, node, nil, cons, Floats, uniform,
  new_inner, new_with_label, new_with_traversal_index, set_dir, set_gaps, set_size_proportion,
  relabel, one_child, two_children,
}

pub record Line (F : Type 0) : Type 0 where
  pub outer_gaps : Gaps F
  pub inner_gaps : Gaps F
  pub direction : LayoutDir
  pub reversed : Bool

pub data MasterSide : Type 0 where
  left right top bottom : MasterSide

pub record MasterStack (F : Type 0) : Type 0 where
  pub outer_gaps : Gaps F
  pub inner_gaps : Gaps F
  pub master_factor : F
  pub master_side : MasterSide
  pub master_count : ℕ
  pub reversed : Bool

pub record Dwindle (F : Type 0) : Type 0 where
  pub outer_gaps : Gaps F
  pub inner_gaps : Gaps F

pub record Spiral (F : Type 0) : Type 0 where
  pub outer_gaps : Gaps F
  pub inner_gaps : Gaps F

pub data CornerLocation : Type 0 where
  top_left top_right bottom_left bottom_right : CornerLocation

pub record Corner (F : Type 0) : Type 0 where
  pub outer_gaps : Gaps F
  pub inner_gaps : Gaps F
  pub corner_width_factor : F
  pub corner_height_factor : F
  pub corner_loc : CornerLocation

abbrev pub is_horizontal : MasterSide → Bool
is_horizontal left = true
is_horizontal right = true
is_horizontal top = false
is_horizontal bottom = false

abbrev pub master_first : MasterSide → Bool
master_first left = true
master_first top = true
master_first right = false
master_first bottom = false

-- In rounds 0 and 1 of four it is the second child that is split on, and in the others the first.
abbrev pub splits_second : ℕ → Bool
splits_second i = leb (i % 4) 1

abbrev pub corner_is_left : CornerLocation → Bool
corner_is_left top_left = true
corner_is_left bottom_left = true
corner_is_left top_right = false
corner_is_left bottom_right = false

abbrev pub corner_is_top : CornerLocation → Bool
corner_is_top top_left = true
corner_is_top top_right = true
corner_is_top bottom_left = false
corner_is_top bottom_right = false

-- `(idx, vec![(idx % 2 == 1) as u32])` for each window.
abbrev pub corner_overrides : (from count : ℕ) → List (ℕ × List ℕ)
corner_overrides from zero = []
corner_overrides from (suc n) = (from, from % 2 ∷ []) ∷ corner_overrides (from + 1) n

module _ {F : Type 0} ⦃fl : Floats F⦄ where
  -- The children of a line: `(0..window_count)`, and the same reversed.
  abbrev pub line_tile : Gaps F → ℕ → Node F
  line_tile inner index = node (set_gaps inner (new_with_traversal_index index)) nil

  abbrev pub line_tiles : Gaps F → (from count : ℕ) → Nodes F
  line_tiles inner from zero = nil
  line_tiles inner from (suc n) = cons (line_tile inner from) (line_tiles inner (from + 1) n)

  abbrev pub line_tiles_reversed : Gaps F → (count : ℕ) → Nodes F
  line_tiles_reversed inner zero = nil
  line_tiles_reversed inner (suc n) = cons (line_tile inner n) (line_tiles_reversed inner n)

  unfoldable pub line_layout : Line F → ℕ → Node F
  line_layout l window_count =
      node (set_dir l.direction (set_gaps l.outer_gaps (new_with_label "builtin.line"))) (
        if l.reversed
        then line_tiles_reversed l.inner_gaps window_count
        else line_tiles l.inner_gaps 0 window_count)

  abbrev pub master_root : MasterStack F → LayoutNodeInner F
  master_root m =
      set_dir (if is_horizontal m.master_side then row else column)
        (set_gaps m.outer_gaps (new_with_label "builtin.master_stack"))

  abbrev pub master_line : MasterStack F → Line F
  master_line m = record {
    outer_gaps = uniform fl.zero_f32;
    inner_gaps = m.inner_gaps;
    direction = if is_horizontal m.master_side then column else row;
    reversed = m.reversed;
  }

  unfoldable pub master_stack_layout : MasterStack F → ℕ → Node F
  unfolding line_layout
  master_stack_layout m zero = node (master_root m) nil
  master_stack_layout m (suc n) =
      let window_count = suc n in
      let factor = fl.clamp m.master_factor fl.tenth fl.nine_tenths in
      let master =
        relabel (text "builtin.master_stack.master_side") (if m.reversed then 1 else 0)
          (fl.times factor fl.ten)
          (line_layout (master_line m) (min m.master_count window_count)) in
      let stack =
        relabel (text "builtin.master_stack.stack_side") (if m.reversed then 0 else 1)
          (fl.times (fl.minus fl.one_f32 factor) fl.ten)
          (line_layout (master_line m) (window_count - min m.master_count window_count)) in
      if leb window_count m.master_count
      then node (master_root m) (one_child master)
      else if master_first m.master_side
      then node (master_root m) (two_children master stack)
      else node (master_root m) (two_children stack master)

  -- A half of a split of `Dwindle` and `Spiral`.
  abbrev pub half : String → Gaps F → (i j index : ℕ) → LayoutNodeInner F
  half label inner i j index = set_gaps inner (
      set_dir (if i % 2 == 0 then column else row)
        (new_inner (some (numbered label (i ∷ j ∷ []))) index))

  -- The loop from round `i` on: the children of the node that is split. A child that is split itself
  -- loses its gaps in the next round.
  abbrev pub dwindle_splits : Gaps F → (i rounds : ℕ) → Nodes F
  dwindle_splits inner i zero = nil
  dwindle_splits inner i (suc zero) =
      two_children (node (half "builtin.dwindle.split" inner i 0 0) nil)
        (node (half "builtin.dwindle.split" inner i 1 1) nil)
  dwindle_splits inner i (suc (suc n)) =
      two_children (node (half "builtin.dwindle.split" inner i 0 0) nil) (
        node (set_gaps (uniform fl.zero_f32) (half "builtin.dwindle.split" inner i 1 1))
          (dwindle_splits inner (i + 1) (suc n)))

  -- The layout of one window, as `Dwindle`, `Spiral` and `Corner` have it.
  abbrev pub single : Gaps F → Nodes F
  single inner = one_child (node (set_gaps inner (new_inner none 0)) nil)

  unfoldable pub dwindle_layout : Dwindle F → ℕ → Node F
  dwindle_layout d zero = node (set_gaps d.outer_gaps (new_with_label "builtin.dwindle")) nil
  dwindle_layout d (suc zero) =
      node (set_gaps d.outer_gaps (new_with_label "builtin.dwindle")) (single d.inner_gaps)
  dwindle_layout d (suc (suc n)) =
      node (set_gaps d.outer_gaps (new_with_label "builtin.dwindle"))
        (dwindle_splits d.inner_gaps 0 (suc n))

  abbrev pub spiral_pair : Gaps F → ℕ → Nodes F → Nodes F
  spiral_pair inner i inside =
      let first = half "builtin.spiral.split" inner i 0 (if splits_second i then 0 else 1) in
      let second = half "builtin.spiral.split" inner i 1 (if splits_second i then 1 else 0) in
      if splits_second i
      then two_children (node first nil) (node (set_gaps (uniform fl.zero_f32) second) inside)
      else two_children (node (set_gaps (uniform fl.zero_f32) first) inside) (node second nil)

  abbrev pub spiral_splits : Gaps F → (i rounds : ℕ) → Nodes F
  spiral_splits inner i zero = nil
  spiral_splits inner i (suc zero) =
      two_children
        (node (half "builtin.spiral.split" inner i 0 (if splits_second i then 0 else 1)) nil)
        (node (half "builtin.spiral.split" inner i 1 (if splits_second i then 1 else 0)) nil)
  spiral_splits inner i (suc (suc n)) = spiral_pair inner i (spiral_splits inner (i + 1) (suc n))

  unfoldable pub spiral_layout : Spiral F → ℕ → Node F
  spiral_layout d zero = node (set_gaps d.outer_gaps (new_with_label "builtin.spiral")) nil
  spiral_layout d (suc zero) =
      node (set_gaps d.outer_gaps (new_with_label "builtin.spiral")) (single d.inner_gaps)
  spiral_layout d (suc (suc n)) =
      node (set_gaps d.outer_gaps (new_with_label "builtin.spiral"))
        (spiral_splits d.inner_gaps 0 (suc n))

  -- The setters of the proportion and the traversal index, on a line.
  abbrev pub as_part : F → ℕ → Node F → Node F
  as_part p index (node n ns) =
      node (record (set_size_proportion p n) { traversal_index = index }) ns

  abbrev pub corner_root : Corner F → LayoutNodeInner F
  corner_root c = set_gaps c.outer_gaps (new_with_label "builtin.corner")

  abbrev pub corner_line : Corner F → LayoutDir → Line F
  corner_line c direction = record {
    outer_gaps = uniform fl.zero_f32;
    inner_gaps = c.inner_gaps;
    direction = direction;
    reversed = false;
  }

  -- The node of the corner and the horizontal stack.
  abbrev pub corner_side : Corner F → LayoutNodeInner F
  corner_side c =
      set_size_proportion (fl.times (fl.clamp c.corner_width_factor fl.tenth fl.nine_tenths) fl.ten)
        (set_dir column (new_inner (some (text "builtin.corner.corner_and_stack")) 0))

  abbrev pub corner_node : Corner F → Node F
  corner_node c =
      node
        (set_gaps c.inner_gaps (
          set_size_proportion
            (fl.times (fl.clamp c.corner_height_factor fl.tenth fl.nine_tenths) fl.ten)
            (new_with_traversal_index 0)))
        nil

  abbrev pub corner_arranged : Corner F → Node F → Node F → Nodes F
  corner_arranged c side vert =
      if corner_is_left c.corner_loc then two_children side vert else two_children vert side

  abbrev pub corner_stacked : Corner F → Node F → Nodes F
  corner_stacked c horiz =
      if corner_is_top c.corner_loc
      then two_children (corner_node c) horiz
      else two_children horiz (corner_node c)

  unfoldable pub corner_layout : Corner F → ℕ → Node F
  unfolding line_layout
  corner_layout c zero = node (corner_root c) nil
  corner_layout c (suc zero) = node (corner_root c) (single c.inner_gaps)
  corner_layout c (suc (suc n)) =
      let width = fl.clamp c.corner_width_factor fl.tenth fl.nine_tenths in
      let height = fl.clamp c.corner_height_factor fl.tenth fl.nine_tenths in
      let vert_count = (suc n + 1) / 2 in
      let horiz_count = suc n / 2 in
      let vert =
        as_part (fl.times (fl.minus fl.one_f32 width) fl.ten) 1
          (line_layout (corner_line c column) vert_count) in
      let horiz =
        as_part (fl.times (fl.minus fl.one_f32 height) fl.ten) 1
          (line_layout (corner_line c row) horiz_count) in
      if horiz_count == 0
      then node (corner_root c)
          (corner_arranged c (node (set_gaps c.inner_gaps (corner_side c)) nil) vert)
      else node (record (corner_root c) { traversal_overrides = corner_overrides 0 (suc (suc n)) })
          (corner_arranged c (node (corner_side c) (corner_stacked c horiz)) vert)

  -- `Floating`, whose tree is empty.
  unfoldable pub floating_layout : Node F
  floating_layout = node (new_with_label "builtin.floating") nil
