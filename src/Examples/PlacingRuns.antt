-- ===== src/Examples/PlacingRuns.antt =====
-- Two windows in view on an output, and the tiles that they get.
use pinnacle.Tag.{tag_output}
use pinnacle.Common.{
  is_some, if◌then◌else◌, ◌==◌, ℕ, ◌≡◌, refl, arith, true, false, not, ◌&&◌, ◌||◌, List, [], ◌∷◌,
  Option, none, some, length, elem, retain,
}
use pinnacle.Common.Int.{ℤ, pos, negsuc}
use pinnacle.Geometry.{add_point, Rectangle, origin, no_size}
use pinnacle.State.{update, Pinnacle}
use pinnacle.Output.{focused_tags, extend}
use pinnacle.Window.LayoutMode.{set_maximized, FloatingOrTiled, is_tiled, is_spilled, current}
use pinnacle.Window.State.{floating_loc}
use pinnacle.Window.Queries.{window_output, is_x11_override_redirect}
use pinnacle.Layout.Tree.{LayoutNode, new_tree}
use pinnacle.Layout.Tree.Walk.{compute_geos}
use pinnacle.Layout.Received.{try_from}
use pinnacle.Layout.Pending.{add_for_output, take_next_for_output}
use pinnacle.Layout.Placing.{Mapping, Desktop, Surroundings, compute_window_geometry}
use pinnacle.Layout.Placing.Updates.{
  no_mapping, map_window_to, floating_loc_for_output, move_window_to_output,
  update_window_layout_mode,
}
use pinnacle.Layout.Placing.Moved.{move_window_to_output_lem}
use pinnacle.Layout.Placing.Modes.{is_placed, update_window_layout_mode_lem}
use pinnacle.Layout.Placing.Twice.{second_geometry, with_coordinates, compute_twice}
use pinnacle.Layout.Placing.FromTree.{
  zip_tiles, all_entries, windows_on, has_focused_tag, tiled_windows, entries_of, skip,
  update_windows_from_tree,
}
use pinnacle.Layout.Placing.FromTree.Spilled.{spilled_at}
use pinnacle.Layout.Placing.FromTree.Configured.{mode_of, target_of}
use pinnacle.Layout.Placing.FromTree.Shared.{firsts, windows_of, Maps}
use pinnacle.Layout.Placing.FromTree.Whole.{update_windows_from_tree_lem}
use pinnacle.Client.Sent.{api_node}
use pinnacle.Client.Generators.Given.{master_stack, generate}
use pinnacle.Client.Generators.Shown.{generate_shown}
use pinnacle.Examples.World.{world, window_state, list_sets, sizes}
use pinnacle.Examples.LayoutRuns.{whole_numbers, rounding, side_by_side, defaults, masters}

abbrev screen : Rectangle
screen = record { loc = origin; size = record { w = pos 1920; h = pos 1080 } }

abbrev around : Surroundings
around = record {
  window_size = λ w. record { w = pos 640; h = pos 480 };
  parent_window_for = λ w. none;
  unconstrained = λ size anchor zone. record { x = pos 640; y = pos 300 };
  downscale = λ size by. no_size;
  can_snapshot = λ w. true;
  outputs_for_element = λ w. 0 ∷ [];
  hash_order = λ ws. ws;
}

abbrev desktop : Pinnacle → Desktop
desktop p = record {
  pinnacle = p;
  elements = [];
  pending_window_updates = [];
  pending_transactions = [];
  pending_unmaps = [];
  pending_swap = false;
  layout_node = λ w. none;
  unmapping_windows = λ u. record { fullscreen = false; space_loc = origin };
  next_unmapping = 0;
}

abbrev mapped_world : Pinnacle
mapped_world = record world { output_geometry = λ o. some screen }

abbrev in_view : List ℕ
in_view = retain (has_focused_tag 0 mapped_world) (windows_on 0 mapped_world)

two_take_part : tiled_windows in_view mapped_world ≡ 0 ∷ 1 ∷ []
unfolding window_output focused_tags extend is_tiled is_spilled is_x11_override_redirect
two_take_part = refl

two_windows : length (tiled_windows in_view mapped_world) ≡ 2
two_windows = rw two_take_part refl

-- A floating window of which only the x coordinate is set is first placed as if it were not.
abbrev lone_x : Pinnacle
lone_x = record world {
  window_states = λ w. record (window_state w) {
    layout_mode = record {
      base_mode = FloatingOrTiled.floating;
      elevated_mode = none;
      client_requested_mode = none;
    };
    floating_x = some (pos 5);
  };
}

abbrev elsewhere : Rectangle
elsewhere = record { loc = record { x = pos 30; y = pos 40 }; size = no_size }

abbrev x_of : Option Rectangle → Option ℕ
x_of none = none
x_of (some r) = elim r.loc.x [ pos n ↦ some n | negsuc n ↦ none ]

lone_x_ignored : x_of (compute_window_geometry around 0 screen screen (desktop lone_x)).0 ≡ some 640
unfolding compute_window_geometry floating_loc
lone_x_ignored = refl

lone_x_heeded :
    let (geo, e) = compute_window_geometry around 0 screen screen (desktop lone_x) in
    x_of (compute_window_geometry around 0 screen screen e).0 ≡ some 5
unfolding compute_window_geometry floating_loc
lone_x_heeded = refl

compute_twice_example :
    let (geo, e) = compute_window_geometry around 0 screen screen (desktop lone_x) in
    ((compute_window_geometry around 0 screen screen e).0
      ≡ second_geometry (current (lone_x.window_states 0).layout_mode) (lone_x.window_states 0) geo)
    × ((c : Option ℤ)
        → let first : Option Rectangle =
            (compute_window_geometry around 0 screen screen
              (with_coordinates around 0 none none (desktop lone_x))).0 in
          ((compute_window_geometry around 0 screen screen
              (with_coordinates around 0 c none (desktop lone_x))).0
            ≡ first)
          × ((compute_window_geometry around 0 screen screen
                (with_coordinates around 0 none c (desktop lone_x))).0
              ≡ first))
compute_twice_example = compute_twice around 0 screen screen (desktop lone_x)

update_windows_from_tree_lem_example :
    (e : Desktop) × (m : Mapping) × (update_windows_from_tree around 0
        (some ((screen, 7) ∷ []))
        false
        (desktop mapped_world)
      ≡ some e)
    × (e.pending_transactions ≡ add_for_output 0 m [])
    × Maps
        (add_point screen.loc (mapped_world.output_states 0).non_exclusive_zone.loc)
        (tiled_windows in_view mapped_world)
        ((screen, 7) ∷ [])
        (entries_of (take_next_for_output 0 (desktop mapped_world).pending_window_updates).0)
        m
    × ((v : ℕ)
        → spilled_at e.pinnacle v ≡ (
            not (elem v (firsts 1 (tiled_windows in_view mapped_world)))
            && (elem v (skip 1 (tiled_windows in_view mapped_world)) || spilled_at mapped_world v)))
update_windows_from_tree_lem_example =
    update_windows_from_tree_lem around 0 screen ((screen, 7) ∷ []) false (desktop mapped_world)
      refl

abbrev updates : List (ℕ × Rectangle)
updates = entries_of (take_next_for_output 0 (desktop mapped_world).pending_window_updates).0

-- A window that got a tile and waited for the layout is mapped once, to where it waited to be.
mapped_where_it_waited :
    target_of 0 (all_entries origin ((0, screen, 7) ∷ []) [] ((0, elsewhere) ∷ []))
    ≡ some elsewhere.loc
mapped_where_it_waited = refl

maps_directly :
    let d = map_window_to true 0 elsewhere.loc (desktop mapped_world) in
    (d.pending_transactions
      ≡ (0, (record no_mapping { map_to = update no_mapping.map_to 0 (some elsewhere.loc) }) ∷ [])
        ∷ [])
unfolding map_window_to window_output tag_output
maps_directly = refl

generate_shown_example :
    (root : LayoutNode ℕ) × (gs : List (Rectangle × ℕ)) × (e : Desktop) × (m : Mapping) × (try_from
        0 1
        (api_node (generate (master_stack (masters 1)) 2))
      ≡ some root)
    × (compute_geos rounding side_by_side 3 (new_tree defaults root) ≡ some gs)
    × (update_windows_from_tree around 0 (some gs) false (desktop mapped_world) ≡ some e)
    × (e.pending_transactions ≡ add_for_output 0 m [])
    × ((v : ℕ)
        → is_some (m.map_to v)
          ≡ (elem v (tiled_windows in_view mapped_world) || elem v (windows_of updates)))
    × ((v : ℕ)
        → m.map_to v
          ≡ target_of v (
              all_entries
                (add_point screen.loc (mapped_world.output_states 0).non_exclusive_zone.loc)
                (zip_tiles (tiled_windows in_view mapped_world) gs)
                []
                updates))
    × ((v : ℕ)
        → elem v (tiled_windows in_view mapped_world) ≡ true
        → spilled_at e.pinnacle v ≡ false)
generate_shown_example =
    generate_shown rounding side_by_side defaults 0 1 around (master_stack (masters 1)) 1 3 0 screen
      false (desktop mapped_world) (omega arith) (omega arith) refl two_windows

only_output :
    (o t : ℕ)
    → elem o (0 ∷ 1 ∷ []) ≡ true
    → elem t (mapped_world.output_states o).tags ≡ true
    → elem t (2 ∷ 3 ∷ []) ≡ true
    → o ≡ 1
only_output o t i j k = ground arith

move_window_to_output_lem_example :
    let q = move_window_to_output around 0 1 mapped_world in
    (window_output 0 q ≡ some 1)
    × (floating_loc (q.window_states 0) ≡ some (floating_loc_for_output around 1 mapped_world))
    × ((v : ℕ) → v == 0 ≡ false → q.window_states v ≡ mapped_world.window_states v)
unfolding window_output tag_output
move_window_to_output_lem_example =
    move_window_to_output_lem around 0 1 2 (3 ∷ []) screen mapped_world refl refl refl only_output
      refl

update_window_layout_mode_lem_example :
    mode_of
      (update_window_layout_mode around 0
        (λ m. set_maximized m true)
        (desktop mapped_world)).pinnacle
      1
    ≡ (if 1 == 0 && is_placed 0 mapped_world
        then set_maximized (mode_of mapped_world 0) true
        else mode_of mapped_world 1)
update_window_layout_mode_lem_example =
    update_window_layout_mode_lem around 0 (λ m. set_maximized m true) (desktop mapped_world) 1
