-- ===== src/Window/State.antt =====
-- src/window/window_state.rs: `WindowElementState`, with the surface that the window wraps. Fields
-- that no modelled operation reads are left out.
use pinnacle.Common.{ℕ, Bool, List, [], ◌∷◌, Option, none, some, max}
use pinnacle.Common.Int.{ℤ, to_i32}
use pinnacle.Geometry.{Point, Size, Rectangle}
use pinnacle.Window.LayoutMode.{LayoutMode}

pub data DecorationMode : Type 0 where
  client_side server_side : DecorationMode

-- `xdg_toplevel::State`s that are set in a toplevel's pending state.
pub record ToplevelStates : Type 0 where
  pub maximized : Bool
  pub fullscreen : Bool
  pub tiled_top : Bool
  pub tiled_left : Bool
  pub tiled_bottom : Bool
  pub tiled_right : Bool

-- What `with_pending_state` gives access to, and whether the initial configure was sent.
pub record Toplevel : Type 0 where
  pub states : ToplevelStates
  pub size : Option Size
  pub decoration_mode : Option DecorationMode
  pub initial_configure_sent : Bool

pub record X11Surface : Type 0 where
  pub override_redirect : Bool
  pub decorated : Bool
  pub mapped : Bool
  pub geometry : Rectangle

pub data UnderlyingSurface : Type 0 where
  wayland : Toplevel → UnderlyingSurface
  x11 : X11Surface → UnderlyingSurface

-- The bounds of a decoration surface, of `u32`s.
pub record Bounds : Type 0 where
  pub top : ℕ
  pub bottom : ℕ
  pub left : ℕ
  pub right : ℕ

pub record WindowElementState : Type 0 where
  pub id : ℕ
  pub tags : List ℕ
  pub layout_mode : LayoutMode
  pub old_layout_mode : Option LayoutMode
  pub decoration_mode : Option DecorationMode
  pub floating_x : Option ℤ
  pub floating_y : Option ℤ
  pub floating_size : Size
  pub need_configure : Bool
  pub decoration_surfaces : List Bounds
  pub surface : UnderlyingSurface

-- `if let (Some(x), Some(y))`.
abbrev both : Option ℤ → Option ℤ → Option Point
both (some x) (some y) = some (record { x = x; y = y })
both none y = none
both (some x) none = none

unfoldable pub floating_loc : WindowElementState → Option Point
floating_loc w = both w.floating_x w.floating_y

unfoldable pub set_floating_loc : WindowElementState → Option Point → WindowElementState
set_floating_loc w none = record w { floating_x = none; floating_y = none }
set_floating_loc w (some p) = record w { floating_x = some p.x; floating_y = some p.y }

abbrev merge_bounds : Bounds → List Bounds → Bounds
merge_bounds b [] = b
merge_bounds b (d ∷ ds) =
    merge_bounds
      (record {
        top = max b.top d.top;
        bottom = max b.bottom d.bottom;
        left = max b.left d.left;
        right = max b.right d.right;
      })
      ds

unfoldable pub max_decoration_bounds : WindowElementState → Bounds
max_decoration_bounds w =
    merge_bounds (record { top = 0; bottom = 0; left = 0; right = 0 }) w.decoration_surfaces

unfoldable pub total_decoration_offset : WindowElementState → Point
unfolding max_decoration_bounds
total_decoration_offset w =
    let b = max_decoration_bounds w in record { x = to_i32 b.left; y = to_i32 b.top }
