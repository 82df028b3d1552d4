-- ===== src/Layout/Placing.antt =====
-- src/window.rs and src/window/layout.rs: where a window is to be, and telling it so. `Desktop` has what
-- these calls read and change beside the fields of `Pinnacle`: the windows that the space maps, and the
-- queues of the layout state. A transaction that waits is kept as what it maps and unmaps.
pub mod Twice
pub mod Updates
pub mod Moved
pub mod Modes
pub mod FromTree
use pinnacle.Common.{
  ℕ, Bool, true, false, not, ◌&&◌, ◌||◌, List, [], ◌∷◌, ◌++◌, Option, none, some, lookup, insert_at,
  without_key, if◌then◌else◌, or_else,
}
use pinnacle.Common.Int.{ℤ}
use pinnacle.Geometry.{Point, Size, Rectangle, add_point}
use pinnacle.Deps.{IndexSet, Smithay}
use pinnacle.State.{
  Pinnacle, ZIndexElement, window, unmapping, send_frame, schedule_render, emit, modify_window,
}
use pinnacle.Window.LayoutMode.{
  LayoutMode, LayoutModeKind, current, is_tiled, is_floating, is_spilled,
}
use pinnacle.Window.State.{WindowElementState, floating_loc, set_floating_loc}
use pinnacle.Window.Queries.{window_output, is_on_active_tag, set_tags_to_output}
use pinnacle.Window.Configure.{configure, configure_states, set_pending_geo}
use pinnacle.Layout.Request.{request_layout}
use pinnacle.Layout.Pending.{add_for_output}

-- What `TransactionBuilder::into_pending` makes of a builder: the windows with their `MapTo`s, the
-- windows that unmap, and the flags.
pub record Mapping : Type 0 where
  pub map_to : ℕ → Option Point  -- the `HashMap` of locations
  pub unmaps : List ℕ
  pub is_swap : Bool
  pub is_resize : Bool

-- A window that is drawn from its snapshot until the others have their new places.
pub record UnmappingWindow : Type 0 where
  pub fullscreen : Bool
  pub space_loc : Point

pub record Desktop : Type 0 where
  pub pinnacle : Pinnacle
  pub elements : List (ℕ × Point)  -- the elements of the `Space` with their locations
  pub pending_window_updates : List (ℕ × List (List (ℕ × Rectangle)))
  pub pending_transactions : List (ℕ × List Mapping)
  pub pending_unmaps : List (ℕ × List (List ℕ))
  pub pending_swap : Bool
  pub layout_node : ℕ → Option ℕ  -- of a window: the node whose geometry it has
  pub unmapping_windows : ℕ → UnmappingWindow
  pub next_unmapping : ℕ  -- the next pointer that `Rc::new` gives an unmapping window

-- What the code asks of smithay: a window's own geometry, the parent that its client gave it, the zone
-- of an output that layer surfaces leave, a positioner that centers a size in a rectangle and slides it
-- into another, the division of a size, whether
-- the renderer makes a snapshot of a window, the outputs that a window is on, and the order in which a
-- set is gone through.
pub record Surroundings : Type 0 where
  pub window_size : ℕ → Size
  pub parent_window_for : ℕ → Option ℕ
  pub unconstrained : Size → Rectangle → Rectangle → Point
  pub downscale : Size → ℕ → Size
  pub can_snapshot : ℕ → Bool
  pub outputs_for_element : ℕ → List ℕ
  pub hash_order : List ℕ → List ℕ

abbrev pub unwrap_or {ℓ} : {A : Type ℓ} → Option A → A → A
unwrap_or none a = a
unwrap_or (some b) a = b

abbrev pub with_pinnacle : Desktop → Pinnacle → Desktop
with_pinnacle d p = record d { pinnacle = p }

module _ ⦃smithay : Smithay⦄ (around : Surroundings) where
  -- `Space::element_geometry` of the parent, if it has one that is mapped.
  abbrev pub parent_geometry : ℕ → Desktop → Option Rectangle
  parent_geometry w d = elim (around.parent_window_for w) [
    | none ↦ none
    | some parent ↦ elim (lookup parent d.elements) [
      | none ↦ none
      | some loc ↦ some (record { loc = loc; size = around.window_size parent })
    ]
  ]

  abbrev pub floating_size_of : ℕ → WindowElementState → Size
  floating_size_of w s =
      if smithay.size_is_empty s.floating_size then around.window_size w else s.floating_size

  -- The location of a floating window: its own, where both coordinates are set, or else where it is, or
  -- else one that centers it.
  abbrev pub floating_place : ℕ → Rectangle → Desktop → Point
  floating_place w zone d =
      let s = d.pinnacle.window_states w in
      unwrap_or (or_else (floating_loc s) (lookup w d.elements))
        (around.unconstrained (floating_size_of w s) (unwrap_or (parent_geometry w d) zone) zone)

  abbrev pub placed_at : Point → Size → WindowElementState → WindowElementState
  placed_at loc size s = record s {
    floating_x = some (unwrap_or s.floating_x loc.x);
    floating_y = some (unwrap_or s.floating_y loc.y);
    floating_size = size;
  }

  abbrev pub geometry_of_kind :
      LayoutModeKind → ℕ → (output_geo zone : Rectangle) → Desktop → Option Rectangle × Desktop
  geometry_of_kind LayoutModeKind.tiled w output_geo zone d = (none, d)
  geometry_of_kind LayoutModeKind.maximized w output_geo zone d = (some zone, d)
  geometry_of_kind LayoutModeKind.fullscreen w output_geo zone d = (some output_geo, d)
  geometry_of_kind _ w output_geo zone d =
      let loc = floating_place w zone d in
      let size = floating_size_of w (d.pinnacle.window_states w) in
      (
        some (record { loc = loc; size = size }),
        with_pinnacle d (modify_window w (placed_at loc size) d.pinnacle),
      )

  unfoldable pub compute_window_geometry :
      ℕ → (output_geo non_exclusive_zone : Rectangle) → Desktop → Option Rectangle × Desktop
  unfolding current
  compute_window_geometry w output_geo zone d =
      let non_exclusive_geo : Rectangle = record zone { loc = add_point zone.loc output_geo.loc } in
      geometry_of_kind (current (d.pinnacle.window_states w).layout_mode) w output_geo
        non_exclusive_geo d
