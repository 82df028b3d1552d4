-- ===== src/Layout/Placing/Updates.antt =====
-- src/window/layout.rs: updates of a window's geometry and of its layout mode, and moves to an output.
use pinnacle.Common.{
  ℕ, Bool, true, false, not, ◌&&◌, ◌||◌, [], ◌∷◌, Option, none, some, if◌then◌else◌, ◌==◌, is_some,
}
use pinnacle.Common.Int.{min_ℤ}
use pinnacle.Geometry.{Point, Rectangle, add_point}
use pinnacle.Deps.{IndexSet, Smithay}
use pinnacle.State.{Pinnacle, send_frame, emit, modify_window, update}
use pinnacle.Window.LayoutMode.{
  LayoutMode, FloatingOrTiled, FullscreenOrMaximized, is_tiled, is_spilled,
}
use pinnacle.Window.State.{set_floating_loc, wayland, x11}
use pinnacle.Window.Queries.{window_output, is_on_active_tag, set_tags_to_output}
use pinnacle.Window.Configure.{configure, configure_states, set_pending_geo}
use pinnacle.Layout.Request.{request_layout}
use pinnacle.Layout.Pending.{add_for_output}
use pinnacle.Layout.Placing.{Mapping, Desktop, Surroundings, with_pinnacle, compute_window_geometry}

-- `==` on layout modes.
abbrev base_eq : FloatingOrTiled → FloatingOrTiled → Bool
base_eq FloatingOrTiled.floating FloatingOrTiled.floating = true
base_eq FloatingOrTiled.tiled FloatingOrTiled.tiled = true
base_eq FloatingOrTiled.spilled FloatingOrTiled.spilled = true
base_eq _ _ = false

abbrev elevated_eq : Option FullscreenOrMaximized → Option FullscreenOrMaximized → Bool
elevated_eq none none = true
elevated_eq (some FullscreenOrMaximized.fullscreen) (some FullscreenOrMaximized.fullscreen) = true
elevated_eq (some FullscreenOrMaximized.maximized) (some FullscreenOrMaximized.maximized) = true
elevated_eq _ _ = false

unfoldable pub mode_eq : LayoutMode → LayoutMode → Bool
mode_eq m n =
    base_eq m.base_mode n.base_mode
    && elevated_eq m.elevated_mode n.elevated_mode
    && elevated_eq m.client_requested_mode n.client_requested_mode

-- A call of one of the other crates' or of `Pinnacle`'s that changes nothing else.
abbrev pub on_pinnacle : (Pinnacle → Pinnacle) → Desktop → Desktop
on_pinnacle f d = with_pinnacle d (f d.pinnacle)

abbrev pub no_mapping : Mapping
no_mapping = record { map_to = λ w. none; unmaps = []; is_swap = false; is_resize = false }

module _ ⦃smithay : Smithay⦄ where
  -- `configure_window_and_add_map`, with the map of a builder's `MapTo`s.
  unfoldable pub configure_window_and_add_map :
      ℕ → (output : ℕ) → Rectangle → (ℕ → Option Point) × Pinnacle → (ℕ → Option Point) × Pinnacle
  unfolding configure_states set_pending_geo configure
  configure_window_and_add_map w output geo (maps, p) = (
    update maps w (some geo.loc),
    emit (send_frame w output)
        (configure w (set_pending_geo w geo.size (some geo.loc) (configure_states w p))),
  )

  unfoldable pub configure_window_and_map : ℕ → (output : ℕ) → Rectangle → Desktop → Desktop
  unfolding configure_window_and_add_map add_for_output
  configure_window_and_map w output geo d =
      let (maps, p) = configure_window_and_add_map w output geo (no_mapping.map_to, d.pinnacle) in
      record d {
        pinnacle = p;
        pending_transactions =
            add_for_output output (record no_mapping { map_to = maps }) d.pending_transactions;
      }

-- Whether `configure` has a serial to acknowledge: smithay says whether a pending configure is sent.
abbrev pub has_serial : (pending_sent : Bool) → ℕ → Pinnacle → Bool
has_serial pending_sent w p = elim (p.window_states w).surface [
  | wayland t ↦ (p.window_states w).need_configure || pending_sent
  | x11 s ↦ false
]

module _ ⦃ix : IndexSet⦄ where
  unfoldable pub map_window_to : (pending_sent : Bool) → ℕ → Point → Desktop → Desktop
  unfolding window_output configure add_for_output
  map_window_to pending_sent w loc d = elim (window_output w d.pinnacle) [
    | none ↦ d
    | some output ↦
        let told = configure w d.pinnacle in
        record d {
          pinnacle =
              if has_serial pending_sent w d.pinnacle
              then emit (send_frame w output) told
              else told;
          pending_transactions =
              add_for_output output
                (record no_mapping {
                  map_to = update no_mapping.map_to w (some loc);
                  is_swap = d.pending_swap;
                })
                d.pending_transactions;
        }
  ]

module _ ⦃ix : IndexSet⦄ ⦃smithay : Smithay⦄ (around : Surroundings) where
  abbrev pub set_pending_if : ℕ → Option Rectangle → Pinnacle → Pinnacle
  set_pending_if w none p = p
  set_pending_if w (some geo) p = set_pending_geo w geo.size (some geo.loc) p

  abbrev pub latch_if : Bool → ℕ → (output : ℕ) → Option Rectangle → Desktop → Desktop
  latch_if spilled w output none d = d
  latch_if spilled w output (some geo) d = if spilled then d else record d {
    pending_window_updates = add_for_output output ((w, geo) ∷ []) d.pending_window_updates;
  }

  abbrev pub map_or_configure : ℕ → (output : ℕ) → Option Rectangle → Desktop → Desktop
  map_or_configure w output none d = on_pinnacle (configure w) d
  map_or_configure w output (some geo) d = configure_window_and_map w output geo d

  -- `update_window_geometry` where the window has an output and that is mapped.
  unfoldable pub update_geometry_on :
      ℕ → (need_layout : Bool) → (output : ℕ) → Rectangle → Desktop → Desktop
  unfolding compute_window_geometry is_on_active_tag configure set_pending_geo is_spilled
      request_layout configure_window_and_map add_for_output
  update_geometry_on w need_layout output output_geo d =
      let mode = (d.pinnacle.window_states w).layout_mode in
      let zone = (d.pinnacle.output_states output).non_exclusive_zone in
      let (geo, e) = compute_window_geometry around w output_geo zone d in
      if not (is_on_active_tag w e.pinnacle)
      then on_pinnacle (λ p. configure w (set_pending_if w geo p)) e
      else if need_layout
      then on_pinnacle (request_layout output) (latch_if (is_spilled mode) w output geo e)
      else map_or_configure w output geo e

  unfoldable pub update_window_geometry : ℕ → (need_layout : Bool) → Desktop → Desktop
  unfolding window_output update_geometry_on configure
  update_window_geometry w need_layout d = elim (window_output w d.pinnacle) [
    | none ↦ on_pinnacle (configure w) d
    | some output ↦ elim (d.pinnacle.output_geometry output) [
      | none ↦ on_pinnacle (configure w) d
      | some geo ↦ update_geometry_on w need_layout output geo d
    ]
  ]

  -- The rest of `update_window_layout_mode`, once the window has its new mode.
  unfoldable pub update_for_modes : ℕ → (old_mode new_mode : LayoutMode) → Desktop → Desktop
  unfolding mode_eq is_tiled is_spilled configure_states update_window_geometry configure
  update_for_modes w old_mode new_mode d =
      let need_layout = is_tiled old_mode || is_tiled new_mode || is_spilled new_mode in
      if not (mode_eq old_mode new_mode)
      then update_window_geometry w need_layout (on_pinnacle (configure_states w) d)
      else on_pinnacle (configure w) d

  unfoldable pub update_window_layout_mode : ℕ → (LayoutMode → LayoutMode) → Desktop → Desktop
  unfolding window_output update_for_modes configure
  update_window_layout_mode w update_layout d = elim (window_output w d.pinnacle) [
    | none ↦ on_pinnacle (configure w) d
    | some output ↦ elim (d.pinnacle.output_geometry output) [
      | none ↦ on_pinnacle (configure w) d
      | some geo ↦
          let old_mode = (d.pinnacle.window_states w).layout_mode in
          let new_mode = update_layout old_mode in
          update_for_modes w old_mode new_mode
            (on_pinnacle (modify_window w (λ s. record s { layout_mode = new_mode })) d)
    ]
  ]

abbrev pub same_output : Option ℕ → ℕ → Bool
same_output none target = false
same_output (some output) target = output == target

module _ ⦃ix : IndexSet⦄ (around : Surroundings) where
  unfoldable pub floating_loc_for_output : ℕ → Pinnacle → Point
  floating_loc_for_output target p =
      let zone = (p.output_states target).non_exclusive_zone in
      let offset = min_ℤ (around.downscale zone.size 100).w (around.downscale zone.size 100).h in
      add_point zone.loc
        (add_point (p.output_states target).current_location (record { x = offset; y = offset }))

  abbrev pub request_layout_if : Option ℕ → Bool → Pinnacle → Pinnacle
  request_layout_if none tiled p = p
  request_layout_if (some output) tiled p = if tiled then request_layout output p else p

  unfoldable pub move_window_to_output : ℕ → (target : ℕ) → Pinnacle → Pinnacle
  unfolding window_output set_tags_to_output floating_loc_for_output set_floating_loc is_tiled
      request_layout
  move_window_to_output w target p =
      let current_output = window_output w p in
      if same_output current_output target
      then p
      else if not (is_some (p.output_geometry target))
      then p
      else let q =
          let r = set_tags_to_output w target p in
          modify_window w (λ s. set_floating_loc s (some (floating_loc_for_output target r))) r in
        request_layout_if current_output (is_tiled (q.window_states w).layout_mode) q
