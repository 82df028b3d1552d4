-- ===== src/Layout/Placing/Modes.antt =====
-- src/window/layout.rs: `update_window_layout_mode` and the modes of windows.
use pinnacle.Common.{
  ℕ, Bool, true, false, ◌||◌, ◌&&◌, ◌≡◌, ◌⊎◌, refl, Option, none, some, ap, sym, ◌∙◌, arith,
  Bool-cases, inl, inr, Option-cases, is_some, ◌==◌, if◌then◌else◌,
}
use pinnacle.Geometry.{Rectangle, add_point}
use pinnacle.Deps.{IndexSet, Smithay}
use pinnacle.State.{Pinnacle, modify_window}
use pinnacle.Window.LayoutMode.{LayoutMode, LayoutModeKind, current, is_tiled, is_spilled}
use pinnacle.Window.Queries.{window_output, is_on_active_tag}
use pinnacle.Window.Configure.{configure, configure_states}
use pinnacle.Layout.Request.{request_layout, next_layout_id}
use pinnacle.Layout.Placing.{Desktop, Surroundings, compute_window_geometry, geometry_of_kind}
use pinnacle.Layout.Placing.Updates.{
  no_mapping, on_pinnacle, mode_eq, configure_window_and_map, set_pending_if, latch_if,
  map_or_configure, update_geometry_on, update_window_geometry, update_for_modes,
  update_window_layout_mode,
}
use pinnacle.Layout.Placing.FromTree.Configured.{
  and_false, mode_of, configure_keeps, configure_states_keeps, set_pending_geo_keeps,
  configure_window_keeps,
}

module _ ⦃ix : IndexSet⦄ where
  -- Whether a window is on an output that is mapped.
  abbrev pub is_placed : ℕ → Pinnacle → Bool
  is_placed w p = elim (window_output w p) [
    | none ↦ false
    | some output ↦ is_some (p.output_geometry output)
  ]

  request_layout_keeps :
      (output : ℕ) (p : Pinnacle) (v : ℕ) → mode_of (request_layout output p) v ≡ mode_of p v
  unfolding request_layout next_layout_id
  request_layout_keeps output p v = ground arith

module _ ⦃ix : IndexSet⦄ ⦃smithay : Smithay⦄ (around : Surroundings) where
  kind_keeps :
      (kind : LayoutModeKind) (w : ℕ) (output_geo zone : Rectangle) (d : Desktop) (v : ℕ)
      → mode_of (geometry_of_kind around kind w output_geo zone d).1.pinnacle v
        ≡ mode_of d.pinnacle v
  kind_keeps LayoutModeKind.tiled w output_geo zone d v = refl
  kind_keeps LayoutModeKind.maximized w output_geo zone d v = refl
  kind_keeps LayoutModeKind.fullscreen w output_geo zone d v = refl
  kind_keeps LayoutModeKind.floating w output_geo zone d v = ground arith
  kind_keeps LayoutModeKind.spilled w output_geo zone d v = ground arith

  compute_keeps :
      (w : ℕ) (output_geo zone : Rectangle) (d : Desktop) (v : ℕ)
      → mode_of (compute_window_geometry around w output_geo zone d).1.pinnacle v
        ≡ mode_of d.pinnacle v
  unfolding compute_window_geometry
  compute_keeps w output_geo zone d v =
      kind_keeps (current (d.pinnacle.window_states w).layout_mode) w output_geo
        (record zone { loc = add_point zone.loc output_geo.loc }) d v

  set_pending_if_keeps :
      (w : ℕ) (geo : Option Rectangle) (p : Pinnacle) (v : ℕ)
      → mode_of (set_pending_if around w geo p) v ≡ mode_of p v
  set_pending_if_keeps w none p v = refl
  set_pending_if_keeps w (some geo) p v = set_pending_geo_keeps w geo.size (some geo.loc) p v

  map_or_configure_keeps :
      (w output : ℕ) (geo : Option Rectangle) (d : Desktop) (v : ℕ)
      → mode_of (map_or_configure around w output geo d).pinnacle v ≡ mode_of d.pinnacle v
  unfolding configure_window_and_map
  map_or_configure_keeps w output none d v = configure_keeps w d.pinnacle v
  map_or_configure_keeps w output (some geo) d v =
      configure_window_keeps w output geo no_mapping.map_to d.pinnacle v

  latch_if_keeps :
      (spilled : Bool) (w output : ℕ) (geo : Option Rectangle) (d : Desktop)
      → (latch_if around spilled w output geo d).pinnacle ≡ d.pinnacle
  latch_if_keeps spilled w output none d = refl
  latch_if_keeps true w output (some geo) d = refl
  latch_if_keeps false w output (some geo) d = refl

  update_geometry_keeps :
      (w : ℕ) (need : Bool) (output : ℕ) (geo : Rectangle) (d : Desktop) (v : ℕ)
      → mode_of (update_geometry_on around w need output geo d).pinnacle v ≡ mode_of d.pinnacle v
  unfolding update_geometry_on
  update_geometry_keeps w need output geo d v =
      let zone = (d.pinnacle.output_states output).non_exclusive_zone in
      let (place, e) = compute_window_geometry around w geo zone d in
      let computed = compute_keeps w geo zone d v in
      elim (Bool-cases (is_on_active_tag w e.pinnacle)) [
        | inr i ↦ rw i (
            configure_keeps w (set_pending_if around w place e.pinnacle) v
            ∙ set_pending_if_keeps w place e.pinnacle v
            ∙ computed)
        | inl i ↦ elim (Bool-cases need) [
          | inl n ↦
              let mode = (d.pinnacle.window_states w).layout_mode in
              rw (i, n)
                (request_layout_keeps output
                    (latch_if around (is_spilled mode) w output place e).pinnacle v
                  ∙ ap (λ (p : Pinnacle). mode_of p v)
                      (latch_if_keeps (is_spilled mode) w output place e)
                  ∙ computed)
          | inr n ↦ rw (i, n) (map_or_configure_keeps w output place e v ∙ computed)
        ]
      ]

  geometry-cases :
      (w : ℕ) (need : Bool) (d : Desktop)
      → (update_window_geometry around w need d ≡ on_pinnacle (configure w) d)
        ⊎ ((output : ℕ) × (geo : Rectangle) × (update_window_geometry around w need d
              ≡ update_geometry_on around w need output geo d))
  unfolding update_window_geometry
  geometry-cases w need d = elim (Option-cases (window_output w d.pinnacle)) [
    | inl e ↦ inl (rw (update_window_geometry, e) refl)
    | inr (output, e) ↦ elim (Option-cases (d.pinnacle.output_geometry output)) [
      | inl f ↦ inl (rw (update_window_geometry, e, f) refl)
      | inr (geo, f) ↦ inr (output, geo, rw (update_window_geometry, e, f) refl)
    ]
  ]

  update_window_geometry_keeps :
      (w : ℕ) (need : Bool) (d : Desktop) (v : ℕ)
      → mode_of (update_window_geometry around w need d).pinnacle v ≡ mode_of d.pinnacle v
  update_window_geometry_keeps w need d v = elim (geometry-cases w need d) [
    | inl e ↦ ap (λ (x : Desktop). mode_of x.pinnacle v) e ∙ configure_keeps w d.pinnacle v
    | inr (output, geo, e) ↦
        ap (λ (x : Desktop). mode_of x.pinnacle v) e ∙ update_geometry_keeps w need output geo d v
  ]

  update_for_modes_keeps :
      (w : ℕ) (old new : LayoutMode) (d : Desktop) (v : ℕ)
      → mode_of (update_for_modes around w old new d).pinnacle v ≡ mode_of d.pinnacle v
  unfolding update_for_modes
  update_for_modes_keeps w old new d v = elim (Bool-cases (mode_eq old new)) [
    | inl e ↦ rw e (configure_keeps w d.pinnacle v)
    | inr e ↦
        let told = on_pinnacle (configure_states w) d in
        let need = is_tiled old || is_tiled new || is_spilled new in
        rw e (update_window_geometry_keeps w need told v ∙ configure_states_keeps w d.pinnacle v)
  ]

  unplaced :
      (w : ℕ) (update_layout : LayoutMode → LayoutMode) (d : Desktop) (v : ℕ)
      → is_placed w d.pinnacle ≡ false
      → update_window_layout_mode around w update_layout d ≡ on_pinnacle (configure w) d
      → mode_of (update_window_layout_mode around w update_layout d).pinnacle v ≡ (
          if v == w && is_placed w d.pinnacle
          then update_layout (mode_of d.pinnacle w)
          else mode_of d.pinnacle v)
  unplaced w update_layout d v e same =
      ap (λ (x : Desktop). mode_of x.pinnacle v) same
      ∙ configure_keeps w d.pinnacle v
      ∙ ap (λ (b : Bool). if b then update_layout (mode_of d.pinnacle w) else mode_of d.pinnacle v)
          (sym (ap (λ (b : Bool). v == w && b) e ∙ and_false (v == w)))

  mode_set :
      (w : ℕ) (new : LayoutMode) (d : Desktop) (v : ℕ) (placed : Bool)
      → placed ≡ true
      → mode_of (modify_window w (λ s. record s { layout_mode = new }) d.pinnacle) v
        ≡ (if v == w && placed then new else mode_of d.pinnacle v)
  mode_set w new d v placed e = ground (arith, e)

  -- After update_window_layout_mode the window has the new mode, if it is on an output that is mapped,
  -- whatever else follows of it; it keeps its mode if it is not, and the other windows keep theirs.
  pub update_window_layout_mode_lem :
      (w : ℕ) (update_layout : LayoutMode → LayoutMode) (d : Desktop) (v : ℕ)
      → mode_of (update_window_layout_mode around w update_layout d).pinnacle v ≡ (
          if v == w && is_placed w d.pinnacle
          then update_layout (mode_of d.pinnacle w)
          else mode_of d.pinnacle v)
  unfolding update_window_layout_mode
  update_window_layout_mode_lem w update_layout d v =
      let old = mode_of d.pinnacle w in
      let new = update_layout old in
      let set = on_pinnacle (modify_window w (λ s. record s { layout_mode = new })) d in
      elim (Option-cases (window_output w d.pinnacle)) [
        | inl e ↦
            unplaced w update_layout d v (rw (is_placed, e) refl)
              (rw (update_window_layout_mode, e) refl)
        | inr (output, e) ↦ elim (Option-cases (d.pinnacle.output_geometry output)) [
          | inl f ↦
              unplaced w update_layout d v (rw (is_placed, e, f) refl)
                (rw (update_window_layout_mode, e, f) refl)
          | inr (geo, f) ↦
              let placed : is_placed w d.pinnacle ≡ true = rw (is_placed, e, f) refl in
              let same : update_window_layout_mode around w update_layout d
                  ≡ update_for_modes around w old new set =
                rw (update_window_layout_mode, e, f) refl in
              ap (λ (x : Desktop). mode_of x.pinnacle v) same
              ∙ update_for_modes_keeps w old new set v
              ∙ mode_set w new d v (is_placed w d.pinnacle) placed
        ]
      ]
