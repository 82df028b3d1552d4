-- ===== src/Window/LayoutMode.antt =====
-- src/window/window_state.rs: the layout mode of a window and every operation on it. A method
-- that takes `&mut self` returns the new mode.
pub mod Reach
pub mod Laws
use pinnacle.Common.{
  Bool, true, false, not, ◌&&◌, Option, none, some, is_some, or_else, take_if, if◌then◌else◌,
}

pub data LayoutModeKind : Type 0 where
  tiled floating maximized fullscreen spilled : LayoutModeKind

pub data FloatingOrTiled : Type 0 where
  floating tiled spilled : FloatingOrTiled

pub data FullscreenOrMaximized : Type 0 where
  fullscreen maximized : FullscreenOrMaximized

pub record LayoutMode : Type 0 where
  pub base_mode : FloatingOrTiled
  pub elevated_mode : Option FullscreenOrMaximized
  pub client_requested_mode : Option FullscreenOrMaximized

-- `LayoutModeKind::is_tiled` and its siblings.
abbrev pub kind_is_tiled : LayoutModeKind → Bool
kind_is_tiled LayoutModeKind.tiled = true
kind_is_tiled _ = false

abbrev pub kind_is_floating : LayoutModeKind → Bool
kind_is_floating LayoutModeKind.floating = true
kind_is_floating _ = false

abbrev pub kind_is_maximized : LayoutModeKind → Bool
kind_is_maximized LayoutModeKind.maximized = true
kind_is_maximized _ = false

abbrev pub kind_is_fullscreen : LayoutModeKind → Bool
kind_is_fullscreen LayoutModeKind.fullscreen = true
kind_is_fullscreen _ = false

abbrev pub kind_is_spilled : LayoutModeKind → Bool
kind_is_spilled LayoutModeKind.spilled = true
kind_is_spilled _ = false

-- `FloatingOrTiled::is_floating` and its siblings. The source's `is_spilled` matches `Tiled`.
unfoldable pub base_is_floating : FloatingOrTiled → Bool
base_is_floating FloatingOrTiled.floating = true
base_is_floating _ = false

unfoldable pub base_is_tiled : FloatingOrTiled → Bool
base_is_tiled FloatingOrTiled.tiled = true
base_is_tiled _ = false

unfoldable pub base_is_spilled : FloatingOrTiled → Bool
base_is_spilled FloatingOrTiled.tiled = true
base_is_spilled _ = false

-- `FullscreenOrMaximized::is_fullscreen` and `is_maximized`.
abbrev pub mode_is_fullscreen : FullscreenOrMaximized → Bool
mode_is_fullscreen FullscreenOrMaximized.fullscreen = true
mode_is_fullscreen FullscreenOrMaximized.maximized = false

abbrev pub mode_is_maximized : FullscreenOrMaximized → Bool
mode_is_maximized FullscreenOrMaximized.fullscreen = false
mode_is_maximized FullscreenOrMaximized.maximized = true

-- `mode == Some(FullscreenOrMaximized::Fullscreen)`, and the same for `Maximized`.
abbrev pub eq_some_fullscreen : Option FullscreenOrMaximized → Bool
eq_some_fullscreen none = false
eq_some_fullscreen (some m) = mode_is_fullscreen m

abbrev pub eq_some_maximized : Option FullscreenOrMaximized → Bool
eq_some_maximized none = false
eq_some_maximized (some m) = mode_is_maximized m

unfoldable pub new_tiled : LayoutMode
new_tiled = record {
  base_mode = FloatingOrTiled.tiled;
  elevated_mode = none;
  client_requested_mode = none;
}

unfoldable pub new_floating : LayoutMode
new_floating = record {
  base_mode = FloatingOrTiled.floating;
  elevated_mode = none;
  client_requested_mode = none;
}

unfoldable pub new_fullscreen : LayoutMode
new_fullscreen = record {
  base_mode = FloatingOrTiled.tiled;
  elevated_mode = some FullscreenOrMaximized.fullscreen;
  client_requested_mode = none;
}

unfoldable pub new_fullscreen_external : LayoutMode
new_fullscreen_external = record {
  base_mode = FloatingOrTiled.tiled;
  elevated_mode = none;
  client_requested_mode = some FullscreenOrMaximized.fullscreen;
}

unfoldable pub new_maximized : LayoutMode
new_maximized = record {
  base_mode = FloatingOrTiled.tiled;
  elevated_mode = some FullscreenOrMaximized.maximized;
  client_requested_mode = none;
}

unfoldable pub new_maximized_external : LayoutMode
new_maximized_external = record {
  base_mode = FloatingOrTiled.tiled;
  elevated_mode = none;
  client_requested_mode = some FullscreenOrMaximized.maximized;
}

-- The two `match`es of `current`.
abbrev kind_of_mode : FullscreenOrMaximized → LayoutModeKind
kind_of_mode FullscreenOrMaximized.fullscreen = LayoutModeKind.fullscreen
kind_of_mode FullscreenOrMaximized.maximized = LayoutModeKind.maximized

abbrev kind_of_base : FloatingOrTiled → LayoutModeKind
kind_of_base FloatingOrTiled.floating = LayoutModeKind.floating
kind_of_base FloatingOrTiled.tiled = LayoutModeKind.tiled
kind_of_base FloatingOrTiled.spilled = LayoutModeKind.spilled

abbrev kind_or_base : Option FullscreenOrMaximized → FloatingOrTiled → LayoutModeKind
kind_or_base (some mode) base = kind_of_mode mode
kind_or_base none base = kind_of_base base

unfoldable pub current : LayoutMode → LayoutModeKind
current m = kind_or_base (or_else m.client_requested_mode m.elevated_mode) m.base_mode

unfoldable pub is_tiled : LayoutMode → Bool
unfolding current
is_tiled m = kind_is_tiled (current m)

unfoldable pub is_floating : LayoutMode → Bool
unfolding current
is_floating m = kind_is_floating (current m)

unfoldable pub is_spilled : LayoutMode → Bool
unfolding current
is_spilled m = kind_is_spilled (current m)

unfoldable pub is_fullscreen : LayoutMode → Bool
unfolding current
is_fullscreen m = kind_is_fullscreen (current m)

unfoldable pub is_maximized : LayoutMode → Bool
unfolding current
is_maximized m = kind_is_maximized (current m)

-- The assignment that `set_floating` and `set_spilled` make.
abbrev rebase : FloatingOrTiled → LayoutMode
rebase b = record { base_mode = b; elevated_mode = none; client_requested_mode = none }

unfoldable pub set_floating : LayoutMode → Bool → LayoutMode
unfolding is_floating
set_floating m true = if not (is_floating m) then rebase FloatingOrTiled.floating else m
set_floating m false = if is_floating m then rebase FloatingOrTiled.tiled else m

unfoldable pub set_spilled : LayoutMode → Bool → LayoutMode
unfolding is_spilled
set_spilled m true = if not (is_spilled m) then rebase FloatingOrTiled.spilled else m
set_spilled m false = if is_spilled m then rebase FloatingOrTiled.tiled else m

unfoldable pub toggle_floating : LayoutMode → LayoutMode
unfolding set_floating
toggle_floating m = set_floating m (not (is_floating m))

unfoldable pub set_maximized : LayoutMode → Bool → LayoutMode
unfolding is_maximized
set_maximized m true =
    if not (is_maximized m)
    then record m {
      client_requested_mode = none;
      elevated_mode = some FullscreenOrMaximized.maximized;
    }
    else m
set_maximized m false =
    if is_maximized m
    then (if eq_some_maximized m.client_requested_mode
        then record m { client_requested_mode = none }
        else record m { elevated_mode = none })
    else m

unfoldable pub set_fullscreen : LayoutMode → Bool → LayoutMode
unfolding is_fullscreen
set_fullscreen m true =
    if not (is_fullscreen m)
    then record m {
      client_requested_mode = none;
      elevated_mode = some FullscreenOrMaximized.fullscreen;
    }
    else m
set_fullscreen m false =
    if is_fullscreen m
    then (if eq_some_fullscreen m.client_requested_mode
        then record m { client_requested_mode = none }
        else record m { elevated_mode = none })
    else m

-- The `false` branch of the two client requests: take the mode from the client's slot, or else
-- from the elevated one.
abbrev take_mode : (FullscreenOrMaximized → Bool) → LayoutMode → LayoutMode
take_mode test m =
    let (took, client) = take_if test m.client_requested_mode in
    if not (is_some took)
    then record m {
      client_requested_mode = client;
      elevated_mode = (take_if test m.elevated_mode).1;
    }
    else record m { client_requested_mode = client }

unfoldable pub set_client_maximized : LayoutMode → Bool → LayoutMode
unfolding is_maximized
set_client_maximized m true =
    if not (is_maximized m) && not (eq_some_fullscreen m.client_requested_mode)
    then record m { client_requested_mode = some FullscreenOrMaximized.maximized }
    else m
set_client_maximized m false = take_mode mode_is_maximized m

unfoldable pub set_client_fullscreen : LayoutMode → Bool → LayoutMode
unfolding is_fullscreen
set_client_fullscreen m true =
    if not (is_fullscreen m)
    then record m { client_requested_mode = some FullscreenOrMaximized.fullscreen }
    else m
set_client_fullscreen m false = take_mode mode_is_fullscreen m

unfoldable pub toggle_maximized : LayoutMode → LayoutMode
unfolding set_maximized
toggle_maximized m = set_maximized m (not (is_maximized m))

unfoldable pub toggle_fullscreen : LayoutMode → LayoutMode
unfolding set_fullscreen
toggle_fullscreen m = set_fullscreen m (not (is_fullscreen m))

-- The `match` of `apply_mode`, on the mode whose two slots were cleared.
abbrev apply_kind : LayoutModeKind → LayoutMode → FloatingOrTiled → LayoutMode
apply_kind LayoutModeKind.maximized m base = set_maximized m true
apply_kind LayoutModeKind.fullscreen m base = set_fullscreen m true
apply_kind _ m base = record m { base_mode = base }

unfoldable pub apply_mode : LayoutMode → LayoutMode → LayoutMode
unfolding set_maximized set_fullscreen current
apply_mode m other =
    apply_kind (current other) (record m { elevated_mode = none; client_requested_mode = none })
      other.base_mode
