-- ===== src/Window/LayoutMode/Laws.antt =====
-- src/window/window_state.rs: what each operation on a layout mode brings about.
use pinnacle.Common.{◌≡◌, Bool, true, false, none, arith}
use pinnacle.Window.LayoutMode.{
  LayoutMode, LayoutModeKind, current, is_floating, is_spilled, is_fullscreen, is_maximized,
  set_floating, set_spilled, set_maximized, set_fullscreen, set_client_maximized,
  set_client_fullscreen, apply_mode,
}

-- After `set_floating(b)` the window floats exactly when `b`, and after `set_spilled(b)` it is
-- spilled exactly when `b`, from any mode at all.
pub set_base_lem :
    (m : LayoutMode) (b : Bool)
    → (is_floating (set_floating m b) ≡ b) × (is_spilled (set_spilled m b) ≡ b)
unfolding set_floating set_spilled
set_base_lem m true = ground arith
set_base_lem m false = ground arith

-- Raising the mode by `set_maximized(true)` or `set_fullscreen(true)` always takes effect, keeps
-- the base mode, and leaves no request of the client pending unless the window was in that mode
-- already, in which case nothing changes.
pub set_elevated_lem :
    (m : LayoutMode)
    → (current (set_maximized m true) ≡ LayoutModeKind.maximized)
      × (current (set_fullscreen m true) ≡ LayoutModeKind.fullscreen)
      × ((set_maximized m true).base_mode ≡ m.base_mode)
      × ((set_fullscreen m true).base_mode ≡ m.base_mode)
      × (is_maximized m ≡ false → (set_maximized m true).client_requested_mode ≡ none)
      × (is_fullscreen m ≡ false → (set_fullscreen m true).client_requested_mode ≡ none)
      × (is_maximized m ≡ true → set_maximized m true ≡ m)
      × (is_fullscreen m ≡ true → set_fullscreen m true ≡ m)
unfolding set_maximized set_fullscreen
set_elevated_lem m = (
  ground arith,
  ground arith,
  ground arith,
  ground arith,
  λ h. ground arith,
  λ h. ground arith,
  λ h. ground arith,
  λ h. ground arith,
)

-- A client's request that is withdrawn leaves no trace: from a mode with no request pending,
-- asking for maximized (or for fullscreen) and then for its end gives the mode back, when the
-- window was not in that mode already.
pub client_request_round_trip :
    (m : LayoutMode)
    → m.client_requested_mode ≡ none
    → (is_maximized m ≡ false → set_client_maximized (set_client_maximized m true) false ≡ m)
      × (is_fullscreen m ≡ false → set_client_fullscreen (set_client_fullscreen m true) false ≡ m)
unfolding set_client_maximized set_client_fullscreen
client_request_round_trip m e = (λ h. ground arith, λ h. ground arith)

-- `apply_mode` gives the window the other mode's current kind, with no client request pending;
-- its base mode changes only if that kind is a base kind.
pub current-apply_mode :
    (m other : LayoutMode)
    → (current (apply_mode m other) ≡ current other)
      × ((apply_mode m other).client_requested_mode ≡ none)
      × (is_maximized other ≡ true → (apply_mode m other).base_mode ≡ m.base_mode)
      × (is_fullscreen other ≡ true → (apply_mode m other).base_mode ≡ m.base_mode)
unfolding apply_mode is_maximized is_fullscreen
current-apply_mode m other = (ground arith, ground arith, λ h. ground arith, λ h. ground arith)
