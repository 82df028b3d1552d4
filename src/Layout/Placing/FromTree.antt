-- ===== src/Layout/Placing/FromTree.antt =====
-- src/layout.rs and src/window/layout.rs: giving the tiles of a layout to the windows of an output. What
-- `compute_geos` makes of the output's current tree is an argument.
pub mod Spilled
pub mod Configured
pub mod Shared
pub mod Whole
use pinnacle.Common.{
  ℕ, zero, suc, Bool, true, false, not, ◌&&◌, ◌||◌, List, [], ◌∷◌, ◌++◌, Option, none, some, lookup,
  without_key, insert_at, if◌then◌else◌, ◌==◌, is_some, retain, any, length, map, elem, ◌>>=◌, ◌+◌,
}
use pinnacle.Geometry.{Point, Size, Rectangle, add_point}
use pinnacle.Deps.{IndexSet, Smithay}
use pinnacle.State.{
  Pinnacle, ZIndexElement, window, unmapping, schedule_render, emit, update, modify_window,
}
use pinnacle.Output.{focused_tags, extend}
use pinnacle.Window.LayoutMode.{is_tiled, is_floating, is_spilled, is_fullscreen, set_spilled}
use pinnacle.Window.State.{set_floating_loc}
use pinnacle.Window.Queries.{window_output, is_x11_override_redirect}
use pinnacle.Layout.Pending.{add_for_output, take_next_for_output}
use pinnacle.Layout.Placing.{
  Mapping, UnmappingWindow, Desktop, Surroundings, with_pinnacle, compute_window_geometry,
}
use pinnacle.Layout.Placing.Updates.{
  configure_window_and_add_map, on_pinnacle, same_output, no_mapping,
}

-- The entry of an unmapping window goes in under that of its window, if there is one.
abbrev pub insert_unmapping : (w u : ℕ) → List ZIndexElement → List ZIndexElement
insert_unmapping w u [] = []
insert_unmapping w u (window v ∷ zs) =
    let rest = insert_unmapping w u zs in
    if v == w then unmapping u ∷ window v ∷ zs else window v ∷ rest
insert_unmapping w u (unmapping v ∷ zs) = unmapping v ∷ insert_unmapping w u zs

abbrev pub schedule_all : List ℕ → Pinnacle → Pinnacle
schedule_all [] p = p
schedule_all (o ∷ os) p = schedule_all os (emit (schedule_render o) p)

abbrev pub entries_of {ℓ} : {A : Type ℓ} → Option (List A) → List A
entries_of none = []
entries_of (some entries) = entries

abbrev pub skip {ℓ} : {A : Type ℓ} → ℕ → List A → List A
skip zero xs = xs
skip (suc n) [] = []
skip (suc n) (x ∷ xs) = skip n xs

-- The zip of windows and of geometries with their nodes.
abbrev pub zip_tiles : List ℕ → List (Rectangle × ℕ) → List (ℕ × Rectangle × ℕ)
zip_tiles [] gs = []
zip_tiles (w ∷ ws) [] = []
zip_tiles (w ∷ ws) ((geo, n) ∷ gs) = (w, geo, n) ∷ zip_tiles ws gs

abbrev pub set_nodes : List (ℕ × Rectangle × ℕ) → (ℕ → Option ℕ) → (ℕ → Option ℕ)
set_nodes [] f = f
set_nodes ((w, geo, n) ∷ rest) f = set_nodes rest (update f w (some n))

module _ (around : Surroundings) where
  -- What is unmapped after a snapshot of it could be taken, and where it was.
  abbrev pub unmapped_at : ℕ → Option Point → Desktop → Option ℕ × Desktop
  unmapped_at w none d = (none, d)
  unmapped_at w (some loc) d =
      if around.can_snapshot w
      then (
        some d.next_unmapping,
        record d {
          unmapping_windows = update d.unmapping_windows d.next_unmapping (record {
            fullscreen = is_fullscreen (d.pinnacle.window_states w).layout_mode;
            space_loc = loc;
          });
          next_unmapping = d.next_unmapping + 1;
          pinnacle = record d.pinnacle {
            z_index_stack = insert_unmapping w d.next_unmapping d.pinnacle.z_index_stack;
          };
        },
      )
      else (none, d)

  unfoldable pub unmap_window : ℕ → Desktop → Option ℕ × Desktop
  unmap_window w d =
      let (u, e) = unmapped_at w (lookup w d.elements) d in
      (
        u,
        record e {
          elements = without_key w e.elements;
          pinnacle = schedule_all (around.outputs_for_element w) e.pinnacle;
        },
      )

  -- A floating window keeps the location that it had.
  abbrev pub keep_floating_loc : ℕ → Option Point → Pinnacle → Pinnacle
  keep_floating_loc w none p = p
  keep_floating_loc w (some loc) p =
      if is_floating (p.window_states w).layout_mode
      then modify_window w (λ s. set_floating_loc s (some loc)) p
      else p

  abbrev pub push_some : Option ℕ → List ℕ → List ℕ
  push_some none us = us
  push_some (some u) us = us ++ u ∷ []

  -- The loop over the windows to unmap.
  unfoldable pub unmap_all : List ℕ → List ℕ × Desktop → List ℕ × Desktop
  unfolding unmap_window set_floating_loc is_floating
  unmap_all [] (us, d) = (us, d)
  unmap_all (w ∷ ws) (us, d) =
      let e = on_pinnacle (keep_floating_loc w (lookup w d.elements)) d in
      let (u, f) = unmap_window w e in unmap_all ws (push_some u us, f)

module _ ⦃ix : IndexSet⦄ where
  abbrev pub windows_on : (output : ℕ) → Pinnacle → List ℕ
  windows_on output p = retain (λ w. same_output (window_output w p) output) p.windows

  abbrev pub has_focused_tag : (output : ℕ) → Pinnacle → ℕ → Bool
  has_focused_tag output p w =
      any (λ t. ix.contains (extend [] (focused_tags output p)) t) (p.window_states w).tags

  -- The windows in view that take part in the layout: the filters are those of before, the modes those
  -- of now.
  abbrev pub tiled_windows : List ℕ → Pinnacle → List ℕ
  tiled_windows in_view p =
      retain
        (λ w.
          is_tiled (p.window_states w).layout_mode || is_spilled (p.window_states w).layout_mode)
        (retain (λ w. not (is_x11_override_redirect w p)) in_view)

abbrev pub with_geometry : ℕ → Option Rectangle × Desktop → Option ((ℕ × Rectangle) × Desktop)
with_geometry w (none, d) = none
with_geometry w (some geo, d) = some ((w, geo), d)

module _ ⦃smithay : Smithay⦄ (around : Surroundings) where
  -- The windows that are left without a tile are spilled; one without a geometry is a panic.
  unfoldable pub spill_all :
      List ℕ → (output_geo zone : Rectangle) → Desktop → Option (List (ℕ × Rectangle) × Desktop)
  unfolding set_spilled compute_window_geometry
  spill_all [] output_geo zone d = some ([], d)
  spill_all (w ∷ ws) output_geo zone d = do
    (spilled, e) ← with_geometry w (
        compute_window_geometry around w output_geo zone (
          on_pinnacle
            (modify_window w (λ s. record s { layout_mode = set_spilled s.layout_mode true })) d))
    (rest, f) ← spill_all ws output_geo zone e
    some (spilled ∷ rest, f)

module _ ⦃smithay : Smithay⦄ where
  -- The loop that configures the windows: the tiled ones are spilled no longer.
  unfoldable pub configure_all :
      (output : ℕ)
      → List (ℕ × Rectangle × Bool)
      → (ℕ → Option Point) × Pinnacle
      → (ℕ → Option Point) × Pinnacle
  unfolding set_spilled configure_window_and_add_map
  configure_all output [] (maps, p) = (maps, p)
  configure_all output ((w, geo, tiled) ∷ rest) (maps, p) =
      let q =
        if tiled
        then modify_window w (λ s. record s { layout_mode = set_spilled s.layout_mode false }) p
        else p in
      configure_all output rest (configure_window_and_add_map w output geo (maps, q))

abbrev pub tiled_entry : Point → ℕ × Rectangle × ℕ → ℕ × Rectangle × Bool
tiled_entry by (w, geo, n) = (w, record geo { loc = add_point geo.loc by }, true)

abbrev pub other_entry : ℕ × Rectangle → ℕ × Rectangle × Bool
other_entry (w, geo) = (w, geo, false)

-- What is configured: the windows with a tile, the spilled ones, and those that waited for the layout.
abbrev pub all_entries :
    (by : Point)
    → List (ℕ × Rectangle × ℕ)
    → (spilled updates : List (ℕ × Rectangle)) → List (ℕ × Rectangle × Bool)
all_entries by tiled spilled updates =
    map (tiled_entry by) tiled ++ map other_entry spilled ++ map other_entry updates

module _ ⦃ix : IndexSet⦄ ⦃smithay : Smithay⦄ where
  -- The part after the spilling.
  unfoldable pub give_places :
      (output : ℕ)
      → (output_geo zone : Rectangle) → (in_view snapshots : List ℕ) → List (Rectangle × ℕ)
      → (is_resize : Bool) → List (ℕ × Rectangle)
      → Desktop
      → Desktop
  unfolding configure_all take_next_for_output add_for_output is_tiled is_spilled
      is_x11_override_redirect
  give_places output output_geo zone in_view snapshots gs is_resize spilled e =
      let tiled = zip_tiles (tiled_windows in_view e.pinnacle) gs in
      let (updates, later_updates) = take_next_for_output output e.pending_window_updates in
      let (maps, p) =
        configure_all output
          (all_entries (add_point output_geo.loc zone.loc) tiled spilled (entries_of updates))
          (no_mapping.map_to, e.pinnacle) in
      let (unmaps, later_unmaps) = take_next_for_output output e.pending_unmaps in
      record e {
        pinnacle = p;
        layout_node = set_nodes tiled e.layout_node;
        pending_window_updates = later_updates;
        pending_unmaps = later_unmaps;
        pending_transactions =
            add_for_output output
              (record {
                map_to = maps;
                unmaps = entries_of unmaps ++ snapshots;
                is_swap = e.pending_swap;
                is_resize = is_resize;
              })
              e.pending_transactions;
      }

module _ ⦃ix : IndexSet⦄ ⦃smithay : Smithay⦄ (around : Surroundings) where
  -- The part once the output is known to be mapped, and what had to be unmapped is.
  unfoldable pub place_tiles :
      (output : ℕ)
      → Rectangle
      → (in_view snapshots : List ℕ) → List (Rectangle × ℕ)
      → (is_resize : Bool) → Desktop
      → Option Desktop
  unfolding spill_all give_places is_tiled is_spilled is_x11_override_redirect
  place_tiles output output_geo in_view snapshots gs is_resize d = do
    let zone = (d.pinnacle.output_states output).non_exclusive_zone
    let left = skip (length gs) (tiled_windows in_view d.pinnacle)
    (spilled, e) ← spill_all around left output_geo zone d
    some (give_places output output_geo zone in_view snapshots gs is_resize spilled e)

  -- The loop at the end, over what is left of the zip, has nothing to go over.
  unfoldable pub update_windows_from_tree :
      (output : ℕ) → Option (List (Rectangle × ℕ)) → (is_resize : Bool) → Desktop → Option Desktop
  unfolding window_output focused_tags extend unmap_all place_tiles
  update_windows_from_tree output none is_resize d = some d
  update_windows_from_tree output (some gs) is_resize d =
      let on = windows_on output d.pinnacle in
      let in_view = retain (has_focused_tag output d.pinnacle) on in
      let to_unmap = retain (λ w. not (has_focused_tag output d.pinnacle w)) on in
      let mapped = retain (λ w. elem w to_unmap) (map (λ (e : ℕ × Point). e.0) d.elements) in
      let (snapshots, e) = unmap_all around (around.hash_order mapped) ([], d) in
      elim (e.pinnacle.output_geometry output) [
        | none ↦ some e
        | some output_geo ↦ place_tiles output output_geo in_view snapshots gs is_resize e
      ]
