-- ===== src/Layout/Placing/Twice.antt =====
-- src/window.rs: `compute_window_geometry` leaves the window where a second call finds it, or not.
use pinnacle.Common.{ℕ, ◌≡◌, refl, inl, inr, Option, none, some, ap, ◌∙◌, ==_refl, Bool-cases}
use pinnacle.Common.Int.{ℤ}
use pinnacle.Geometry.{Point, Rectangle, add_point}
use pinnacle.Deps.{Smithay}
use pinnacle.State.{Pinnacle, modify_window}
use pinnacle.Window.LayoutMode.{LayoutModeKind, current}
use pinnacle.Window.State.{WindowElementState, floating_loc}
use pinnacle.Layout.Placing.{
  Desktop, Surroundings, unwrap_or, with_pinnacle, floating_size_of, floating_place, placed_at,
  geometry_of_kind, compute_window_geometry,
}

-- A rectangle moved to the coordinates that are set.
abbrev pub at_set : Option ℤ → Option ℤ → Rectangle → Rectangle
at_set x y r = record r { loc = record { x = unwrap_or x r.loc.x; y = unwrap_or y r.loc.y } }

-- What a second call gives, by the kind of the window's mode.
abbrev pub second_geometry :
    LayoutModeKind → WindowElementState → Option Rectangle → Option Rectangle
second_geometry kind s none = none
second_geometry LayoutModeKind.floating s (some r) = some (at_set s.floating_x s.floating_y r)
second_geometry LayoutModeKind.spilled s (some r) = some (at_set s.floating_x s.floating_y r)
second_geometry _ s (some r) = some r

module _ ⦃smithay : Smithay⦄ (around : Surroundings) where
  floating_size-placed_at :
      (w : ℕ) (loc : Point) (s : WindowElementState)
      → floating_size_of around w (placed_at around loc (floating_size_of around w s) s)
        ≡ floating_size_of around w s
  floating_size-placed_at w loc s = elim (Bool-cases (smithay.size_is_empty s.floating_size)) [
    | inl e ↦ rw e (elim (Bool-cases (smithay.size_is_empty (around.window_size w))) [
      | inl f ↦ rw f refl
      | inr f ↦ rw f refl
    ])
    | inr e ↦ rw (e, e) refl
  ]

  same_state :
      (w : ℕ) (f : WindowElementState → WindowElementState) (p : Pinnacle)
      → (modify_window w f p).window_states w ≡ f (p.window_states w)
  same_state w f p = rw (==_refl w) refl

  floating_twice :
      (w : ℕ) (output_geo zone : Rectangle) (d : Desktop)
      → let size = floating_size_of around w (d.pinnacle.window_states w) in
        let loc = floating_place around w zone d in
        let e = with_pinnacle d (modify_window w (placed_at around loc size) d.pinnacle) in
        let s = d.pinnacle.window_states w in
        (floating_place around w zone e
          ≡ record { x = unwrap_or s.floating_x loc.x; y = unwrap_or s.floating_y loc.y })
        × (floating_size_of around w (e.pinnacle.window_states w) ≡ size)
  unfolding floating_loc
  floating_twice w output_geo zone d =
      let size = floating_size_of around w (d.pinnacle.window_states w) in
      let loc = floating_place around w zone d in
      let same = same_state w (placed_at around loc size) d.pinnacle in
      (
        rw same refl,
        ap (floating_size_of around w) same
            ∙ floating_size-placed_at w loc (d.pinnacle.window_states w),
      )

  kind_twice :
      (kind : LayoutModeKind) (w : ℕ) (output_geo zone : Rectangle) (d : Desktop)
      → let (geo, e) = geometry_of_kind around kind w output_geo zone d in
        (geometry_of_kind around kind w output_geo zone e).0
        ≡ second_geometry kind (d.pinnacle.window_states w) geo
  kind_twice LayoutModeKind.tiled w output_geo zone d = refl
  kind_twice LayoutModeKind.maximized w output_geo zone d = refl
  kind_twice LayoutModeKind.fullscreen w output_geo zone d = refl
  kind_twice LayoutModeKind.floating w output_geo zone d =
      let (e, f) = floating_twice w output_geo zone d in rw (e, f) refl
  kind_twice LayoutModeKind.spilled w output_geo zone d =
      let (e, f) = floating_twice w output_geo zone d in rw (e, f) refl

  mode_kept :
      (kind : LayoutModeKind) (w : ℕ) (output_geo zone : Rectangle) (d : Desktop)
      → ((geometry_of_kind around kind w output_geo zone d).1.pinnacle.window_states w).layout_mode
        ≡ (d.pinnacle.window_states w).layout_mode
  mode_kept LayoutModeKind.tiled w output_geo zone d = refl
  mode_kept LayoutModeKind.maximized w output_geo zone d = refl
  mode_kept LayoutModeKind.fullscreen w output_geo zone d = refl
  mode_kept LayoutModeKind.floating w output_geo zone d = rw (==_refl w) refl
  mode_kept LayoutModeKind.spilled w output_geo zone d = rw (==_refl w) refl

  -- The window with other coordinates set.
  abbrev pub with_coordinates : ℕ → (x y : Option ℤ) → Desktop → Desktop
  with_coordinates w x y d =
      with_pinnacle d
        (modify_window w (λ s. record s { floating_x = x; floating_y = y }) d.pinnacle)

  kind_lone :
      (kind : LayoutModeKind) (w : ℕ) (output_geo zone : Rectangle) (d : Desktop) (c : Option ℤ)
      → ((geometry_of_kind around kind w output_geo zone (with_coordinates w c none d)).0
          ≡ (geometry_of_kind around kind w output_geo zone (with_coordinates w none none d)).0)
        × ((geometry_of_kind around kind w output_geo zone (with_coordinates w none c d)).0
            ≡ (geometry_of_kind around kind w output_geo zone (with_coordinates w none none d)).0)
  unfolding floating_loc
  kind_lone LayoutModeKind.tiled w output_geo zone d c = (refl, refl)
  kind_lone LayoutModeKind.maximized w output_geo zone d c = (refl, refl)
  kind_lone LayoutModeKind.fullscreen w output_geo zone d c = (refl, refl)
  kind_lone LayoutModeKind.floating w output_geo zone d none = (refl, refl)
  kind_lone LayoutModeKind.spilled w output_geo zone d none = (refl, refl)
  kind_lone LayoutModeKind.floating w output_geo zone d (some c) =
      (rw (==_refl w) refl, rw (==_refl w) refl)
  kind_lone LayoutModeKind.spilled w output_geo zone d (some c) =
      (rw (==_refl w) refl, rw (==_refl w) refl)

  lone_unheeded :
      (w : ℕ) (output_geo zone : Rectangle) (d : Desktop) (c : Option ℤ)
      → let first : Option Rectangle =
          (compute_window_geometry around w output_geo zone (with_coordinates w none none d)).0 in
        ((compute_window_geometry around w output_geo zone (with_coordinates w c none d)).0 ≡ first)
        × ((compute_window_geometry around w output_geo zone (with_coordinates w none c d)).0
            ≡ first)
  unfolding compute_window_geometry
  lone_unheeded w output_geo zone d c =
      let geo : Rectangle = record zone { loc = add_point zone.loc output_geo.loc } in
      rw (==_refl w)
        (kind_lone (current (d.pinnacle.window_states w).layout_mode) w output_geo geo d c)

  -- Computing the geometry of a window again gives the same one, but that a floating or spilled window
  -- is at each of its coordinates that was set: this heeds a coordinate that was set alone. The first
  -- time, a coordinate that is set alone is not heeded: the geometry is the one that is computed with
  -- none set.
  pub compute_twice :
      (w : ℕ) (output_geo zone : Rectangle) (d : Desktop)
      → let (geo, e) = compute_window_geometry around w output_geo zone d in
        ((compute_window_geometry around w output_geo zone e).0
          ≡ second_geometry
              (current (d.pinnacle.window_states w).layout_mode)
              (d.pinnacle.window_states w)
              geo)
        × ((c : Option ℤ)
            → let first : Option Rectangle =
                (compute_window_geometry around w output_geo zone
                  (with_coordinates w none none d)).0 in
              ((compute_window_geometry around w output_geo zone (with_coordinates w c none d)).0
                ≡ first)
              × ((compute_window_geometry around w output_geo zone (with_coordinates w none c d)).0
                  ≡ first))
  unfolding compute_window_geometry
  compute_twice w output_geo zone d =
      let geo : Rectangle = record zone { loc = add_point zone.loc output_geo.loc } in
      let kind = current (d.pinnacle.window_states w).layout_mode in
      (
        rw (mode_kept kind w output_geo geo d) (kind_twice kind w output_geo geo d),
        lone_unheeded w output_geo zone d,
      )
