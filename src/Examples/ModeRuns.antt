-- ===== src/Examples/ModeRuns.antt =====
-- src/window/window_state.rs on some modes.
use pinnacle.Common.{◌≡◌, ◌↔◌, false}
use pinnacle.Window.LayoutMode.{
  new_maximized_external, is_maximized, is_fullscreen, toggle_maximized, toggle_fullscreen,
}
use pinnacle.Window.LayoutMode.Reach.{
  OneMaximized, BothFullscreen, both_fullscreen, external_maximized_start, Reachable-OneMaximized,
  toggle_maximized_flips, toggle_fullscreen_stuck_iff,
}

Reachable-OneMaximized_example : OneMaximized new_maximized_external
Reachable-OneMaximized_example = Reachable-OneMaximized external_maximized_start

toggle_maximized_flips_example : is_maximized (toggle_maximized new_maximized_external) ≡ false
unfolding new_maximized_external is_maximized
toggle_maximized_flips_example = toggle_maximized_flips external_maximized_start

toggle_fullscreen_stuck_iff_example :
    (is_fullscreen (toggle_fullscreen both_fullscreen) ≡ is_fullscreen both_fullscreen)
    ↔ BothFullscreen both_fullscreen
toggle_fullscreen_stuck_iff_example = toggle_fullscreen_stuck_iff both_fullscreen
