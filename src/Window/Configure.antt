-- ===== src/Window/Configure.antt =====
-- src/window/window_state.rs and src/window.rs: telling a window's client its states and geometry.
use pinnacle.Common.{ℕ, Bool, true, false, not, ◌||◌, Option, none, some, if◌then◌else◌}
use pinnacle.Common.Int.{pos, max_ℤ, to_i32, ◌+ᵢ◌, ◌-ᵢ◌}
use pinnacle.Geometry.{Point, Size, Rectangle, add_point}
use pinnacle.Deps.{IndexSet, Smithay}
use pinnacle.State.{
  Pinnacle, x11_configure, x11_set_maximized, x11_set_fullscreen, send_configure,
  send_pending_configure, emit, modify_window,
}
use pinnacle.Window.LayoutMode.{LayoutModeKind, current, is_tiled, is_fullscreen}
use pinnacle.Window.State.{
  WindowElementState, UnderlyingSurface, wayland, x11, ToplevelStates, DecorationMode, client_side,
  server_side, floating_loc, max_decoration_bounds,
}
use pinnacle.Window.Queries.{is_x11_override_redirect, window_output}

-- The four `set_*_states`: the states that a toplevel is told, and what an X11 window is told.
abbrev toplevel_states : Bool → Bool → Bool → ToplevelStates
toplevel_states maximized fullscreen tiled = record {
  maximized = maximized;
  fullscreen = fullscreen;
  tiled_top = tiled;
  tiled_left = tiled;
  tiled_bottom = tiled;
  tiled_right = tiled;
}

unfoldable pub set_states : Bool → Bool → Bool → ℕ → Pinnacle → Pinnacle
set_states maximized fullscreen tiled w p = elim (p.window_states w).surface [
  | wayland t ↦
      modify_window w
        (λ s. record s {
          surface = wayland (record t { states = toplevel_states maximized fullscreen tiled });
        })
        p
  | x11 s ↦
      if not s.override_redirect
      then emit (x11_set_fullscreen w fullscreen) (emit (x11_set_maximized w maximized) p)
      else p
]

unfoldable pub set_floating_states : ℕ → Pinnacle → Pinnacle
unfolding set_states
set_floating_states = set_states false false false

unfoldable pub set_tiled_states : ℕ → Pinnacle → Pinnacle
unfolding set_states
set_tiled_states = set_states false false true

unfoldable pub set_fullscreen_states : ℕ → Pinnacle → Pinnacle
unfolding set_states
set_fullscreen_states = set_states false true true

unfoldable pub set_maximized_states : ℕ → Pinnacle → Pinnacle
unfolding set_states
set_maximized_states = set_states true false true

unfoldable pub configure_states : ℕ → Pinnacle → Pinnacle
unfolding set_floating_states set_tiled_states set_fullscreen_states set_maximized_states current
configure_states w p = elim (current (p.window_states w).layout_mode) [
  | LayoutModeKind.tiled ↦ set_tiled_states w p
  | LayoutModeKind.floating ↦ set_floating_states w p
  | LayoutModeKind.spilled ↦ set_floating_states w p
  | LayoutModeKind.maximized ↦ set_maximized_states w p
  | LayoutModeKind.fullscreen ↦ set_fullscreen_states w p
]

-- `WindowElement::configure`: an unconditional configure event if one was asked for. What smithay
-- sends is logged; an X11 window has no toplevel.
unfoldable pub configure : ℕ → Pinnacle → Pinnacle
configure w p =
    let q = modify_window w (λ s. record s { need_configure = false }) p in
    elim (p.window_states w).surface [
      | wayland t ↦
          if (p.window_states w).need_configure
          then emit (send_configure w) q
          else emit (send_pending_configure w) q
      | x11 s ↦ q
    ]

abbrev eq_some_client_side : Option DecorationMode → Bool
eq_some_client_side none = false
eq_some_client_side (some client_side) = true
eq_some_client_side (some server_side) = false

abbrev is_decorated : UnderlyingSurface → Bool
is_decorated (wayland t) = false
is_decorated (x11 s) = s.decorated

abbrev map_point : (Point → Point) → Option Point → Option Point
map_point f none = none
map_point f (some a) = some (f a)

-- The first half of `set_pending_geo`: room is left for the decorations, unless there are none.
unfoldable pub client_geo : WindowElementState → Size → Option Point → Size × Option Point
unfolding max_decoration_bounds is_fullscreen
client_geo s size loc =
    let b = max_decoration_bounds s in
    if (is_fullscreen s.layout_mode || eq_some_client_side s.decoration_mode)
      || is_decorated s.surface
    then (size, loc)
    else (
      record {
        w = max_ℤ (pos 0) (size.w -ᵢ to_i32 b.left -ᵢ to_i32 b.right);
        h = max_ℤ (pos 0) (size.h -ᵢ to_i32 b.top -ᵢ to_i32 b.bottom);
      },
      map_point (λ a. record { x = a.x +ᵢ to_i32 b.left; y = a.y +ᵢ to_i32 b.top }) loc,
    )

abbrev point_or : Option Point → Point → Point
point_or none d = d
point_or (some a) d = a

module _ ⦃smithay : Smithay⦄ where
  unfoldable pub set_pending_geo : ℕ → Size → Option Point → Pinnacle → Pinnacle
  unfolding client_geo
  set_pending_geo w size loc p =
      let (size', loc') = client_geo (p.window_states w) size loc in
      elim (p.window_states w).surface [
        | wayland t ↦
            modify_window w (λ s. record s { surface = wayland (record t { size = some size' }) }) p
        | x11 s ↦
            if smithay.size_is_empty size'
            then p
            else emit
                (x11_configure w (record { loc = point_or loc' s.geometry.loc; size = size' })) p
      ]

  -- The `match` of `configure_window_if_nontiled`, with the output's geometry at hand.
  unfoldable pub set_nontiled_geo : LayoutModeKind → ℕ → Rectangle → Rectangle → Pinnacle → Pinnacle
  unfolding set_pending_geo floating_loc
  set_nontiled_geo LayoutModeKind.tiled w output_geo zone p = p
  set_nontiled_geo LayoutModeKind.maximized w output_geo zone p =
      set_pending_geo w zone.size (some (add_point zone.loc output_geo.loc)) p
  set_nontiled_geo LayoutModeKind.fullscreen w output_geo zone p =
      set_pending_geo w output_geo.size (some output_geo.loc) p
  set_nontiled_geo _ w output_geo zone p =
      set_pending_geo w (p.window_states w).floating_size (floating_loc (p.window_states w)) p

module _ ⦃ix : IndexSet⦄ ⦃smithay : Smithay⦄ where
  unfoldable pub configure_window_if_nontiled : ℕ → Pinnacle → Pinnacle
  unfolding set_nontiled_geo configure_states window_output is_x11_override_redirect is_tiled
      current
  configure_window_if_nontiled w p =
      if is_x11_override_redirect w p then p else elim (window_output w p) [
        | none ↦ p
        | some output ↦ elim (p.output_geometry output) [
          | none ↦ p
          | some geo ↦
              let mode = (p.window_states w).layout_mode in
              if is_tiled mode
              then p
              else set_nontiled_geo (current mode) w geo (p.output_states output).non_exclusive_zone
                  (configure_states w p)
        ]
      ]
