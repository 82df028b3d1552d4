-- ===== src/Window/LayoutMode/Reach.antt =====
-- src/window/window_state.rs: the modes that a window can get into. A window starts in a mode that
-- a constructor makes, and the compositor changes it by the public operations alone.
use pinnacle.Common.{◌≡◌, refl, Bool, true, false, not, ◌&&◌, some, arith, ◌↔◌}
use pinnacle.Window.LayoutMode.{
  LayoutMode, FullscreenOrMaximized, eq_some_maximized, new_tiled, new_floating, new_fullscreen,
  new_fullscreen_external, new_maximized, new_maximized_external, is_fullscreen, is_maximized,
  set_floating, set_spilled, toggle_floating, set_maximized, set_fullscreen, set_client_maximized,
  set_client_fullscreen, toggle_maximized, toggle_fullscreen, apply_mode,
}

-- One call of a public operation.
pub data ModeStep (m : LayoutMode) : LayoutMode → Type 0 where
  floats : (b : Bool) → ModeStep m (set_floating m b)
  spills : (b : Bool) → ModeStep m (set_spilled m b)
  maximizes : (b : Bool) → ModeStep m (set_maximized m b)
  fullscreens : (b : Bool) → ModeStep m (set_fullscreen m b)
  client_maximizes : (b : Bool) → ModeStep m (set_client_maximized m b)
  client_fullscreens : (b : Bool) → ModeStep m (set_client_fullscreen m b)
  toggles_floating : ModeStep m (toggle_floating m)
  toggles_maximized : ModeStep m (toggle_maximized m)
  toggles_fullscreen : ModeStep m (toggle_fullscreen m)
  applies : (other : LayoutMode) → ModeStep m (apply_mode m other)

pub data Reachable : LayoutMode → Type 0 where
  tiled_start : Reachable new_tiled
  floating_start : Reachable new_floating
  fullscreen_start : Reachable new_fullscreen
  external_fullscreen_start : Reachable new_fullscreen_external
  maximized_start : Reachable new_maximized
  external_maximized_start : Reachable new_maximized_external
  then : {m n : LayoutMode} → Reachable m → ModeStep m n → Reachable n

-- Not both slots hold `Maximized`.
abbrev pub OneMaximized : LayoutMode → Type 0
OneMaximized m =
    (eq_some_maximized m.elevated_mode && eq_some_maximized m.client_requested_mode) ≡ false

abbrev pub BothFullscreen : LayoutMode → Type 0
BothFullscreen m =
    (m.elevated_mode ≡ some FullscreenOrMaximized.fullscreen)
    × (m.client_requested_mode ≡ some FullscreenOrMaximized.fullscreen)

step-OneMaximized : {m n : LayoutMode} → ModeStep m n → OneMaximized m → OneMaximized n
unfolding set_floating set_spilled set_maximized set_fullscreen set_client_maximized
    set_client_fullscreen toggle_floating toggle_maximized toggle_fullscreen apply_mode
step-OneMaximized {m} (floats b) h = ground arith
step-OneMaximized {m} (spills b) h = ground arith
step-OneMaximized {m} (maximizes b) h = ground arith
step-OneMaximized {m} (fullscreens b) h = ground arith
step-OneMaximized {m} (client_maximizes b) h = ground arith
step-OneMaximized {m} (client_fullscreens b) h = ground arith
step-OneMaximized {m} toggles_floating h = ground arith
step-OneMaximized {m} toggles_maximized h = ground arith
step-OneMaximized {m} toggles_fullscreen h = ground arith
step-OneMaximized {m} (applies other) h = ground arith

-- A window's mode never holds `Maximized` both as its elevated mode and as its client's request,
-- whatever operations were called on it.
pub Reachable-OneMaximized : {m : LayoutMode} → Reachable m → OneMaximized m
unfolding new_tiled new_floating new_fullscreen new_fullscreen_external new_maximized
    new_maximized_external
Reachable-OneMaximized tiled_start = refl
Reachable-OneMaximized floating_start = refl
Reachable-OneMaximized fullscreen_start = refl
Reachable-OneMaximized external_fullscreen_start = refl
Reachable-OneMaximized maximized_start = refl
Reachable-OneMaximized external_maximized_start = refl
Reachable-OneMaximized (then r s) = step-OneMaximized s (Reachable-OneMaximized r)

maximized_flips :
    (m : LayoutMode) → OneMaximized m → is_maximized (toggle_maximized m) ≡ not (is_maximized m)
unfolding toggle_maximized
maximized_flips m h = ground arith

-- In every mode that a window can get into, `toggle_maximized` turns a maximized window into one
-- that is not, and the other way round.
pub toggle_maximized_flips :
    {m : LayoutMode} → Reachable m → is_maximized (toggle_maximized m) ≡ not (is_maximized m)
toggle_maximized_flips {m} r = maximized_flips m (Reachable-OneMaximized r)

-- `toggle_fullscreen` fails to change whether the window is fullscreen exactly when both the
-- elevated mode and the client's request are `Fullscreen`.
pub toggle_fullscreen_stuck_iff :
    (m : LayoutMode) → (is_fullscreen (toggle_fullscreen m) ≡ is_fullscreen m) ↔ BothFullscreen m
unfolding toggle_fullscreen
toggle_fullscreen_stuck_iff m = (λ h. ground arith, λ h. ground arith)

-- The way into that state: the user makes the window fullscreen, the client asks for maximized and
-- then for fullscreen.
abbrev pub both_fullscreen : LayoutMode
both_fullscreen =
    set_client_fullscreen (set_client_maximized (set_fullscreen new_tiled true) true) true

both_fullscreen-Reachable : Reachable both_fullscreen
both_fullscreen-Reachable =
    then (then (then tiled_start (fullscreens true)) (client_maximizes true))
      (client_fullscreens true)

both_fullscreen-BothFullscreen : BothFullscreen both_fullscreen
unfolding set_client_fullscreen set_client_maximized set_fullscreen new_tiled
both_fullscreen-BothFullscreen = (refl, refl)

-- A window can get into a fullscreen mode from which neither `toggle_fullscreen` nor
-- `set_fullscreen(false)` takes it out of fullscreen.
pub fullscreen_may_stick :
    (m : LayoutMode) × Reachable m
    × (is_fullscreen m ≡ true)
    × (is_fullscreen (toggle_fullscreen m) ≡ true)
    × (is_fullscreen (set_fullscreen m false) ≡ true)
unfolding set_client_fullscreen set_client_maximized set_fullscreen new_tiled toggle_fullscreen
fullscreen_may_stick = (both_fullscreen, both_fullscreen-Reachable, refl, refl, refl)
