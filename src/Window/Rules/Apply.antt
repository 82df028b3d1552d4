-- ===== src/Window/Rules/Apply.antt =====
-- src/window/rules.rs: an unmapped window on its way to its initial configure. `none` is a panic.
pub mod Frame
use pinnacle.Common.{
  ℕ, Bool, true, false, not, ◌&&◌, Option, none, some, or_else, is_some, if◌then◌else◌,
}
use pinnacle.Geometry.{Size}
use pinnacle.Deps.{IndexSet, Smithay}
use pinnacle.State.{
  Pinnacle, WindowRules, ClientRequests, Unmapped, UnmappedState, waiting_for_tags,
  waiting_for_rules, post_initial_configure, send_configure, x11_set_mapped, kde_decoration_mode,
  emit, modify_window,
}
use pinnacle.Window.LayoutMode.{
  LayoutMode, FullscreenOrMaximized, new_tiled, new_fullscreen_external, new_maximized_external,
}
use pinnacle.Window.State.{
  WindowElementState, UnderlyingSurface, wayland, x11, DecorationMode, client_side,
}
use pinnacle.Window.Configure.{configure_window_if_nontiled}
use pinnacle.Window.Rules.Requests.{new_request}

abbrev pub value_or {ℓ} : {A : Type ℓ} → Option A → A → A
value_or none d = d
value_or (some a) d = a

abbrev external_mode : FullscreenOrMaximized → LayoutMode
external_mode FullscreenOrMaximized.fullscreen = new_fullscreen_external
external_mode FullscreenOrMaximized.maximized = new_maximized_external

-- The mode of the rules, or else of the client's request, or else tiled.
unfoldable pub initial_mode : WindowRules → ClientRequests → LayoutMode
unfolding new_fullscreen_external new_maximized_external new_tiled
initial_mode rules requests = elim rules.layout_mode [
  | some m ↦ m
  | none ↦ elim requests.layout_mode [ some m ↦ external_mode m | none ↦ new_tiled ]
]

-- The first `with_state_mut`.
unfoldable pub ruled_state : WindowRules → ClientRequests → WindowElementState → WindowElementState
unfolding initial_mode
ruled_state rules requests s = record s {
  layout_mode = initial_mode rules requests;
  floating_x = rules.floating_x;
  floating_y = rules.floating_y;
  floating_size = value_or rules.floating_size s.floating_size;
  decoration_mode = or_else rules.decoration_mode requests.decoration_mode;
  tags = value_or rules.tags s.tags;
}

-- The pending decoration mode of a toplevel, and the mode that a KDE decoration object is told.
unfoldable pub tell_decoration : ℕ → WindowRules → ClientRequests → Pinnacle → Pinnacle
tell_decoration w rules requests p = elim (p.window_states w).surface [
  | wayland t ↦ emit (kde_decoration_mode w (value_or rules.decoration_mode client_side)) (
      modify_window w
        (λ s. record s {
          surface = wayland (record t {
            decoration_mode = or_else rules.decoration_mode requests.decoration_mode;
          });
        })
        p)
  | x11 s ↦ p
]

-- The initial configure, which smithay notes as sent; the mapping of an X11 window.
unfoldable pub send_initial : ℕ → Pinnacle → Option Pinnacle
send_initial w p = elim (p.window_states w).surface [
  | wayland t ↦
      if t.initial_configure_sent
      then none
      else some (
          emit (send_configure w) (
            modify_window w
              (λ s. record s { surface = wayland (record t { initial_configure_sent = true }) }) p))
  | x11 s ↦ some (emit (x11_set_mapped w true) p)
]

abbrev pub ne_some_false : Option Bool → Bool
ne_some_false (some false) = false
ne_some_false (some true) = true
ne_some_false none = true

abbrev pub with_state : Unmapped → UnmappedState → Option Pinnacle → Option (Pinnacle × Unmapped)
with_state u st none = none
with_state u st (some p) = some (p, record u { state = st })

module _ ⦃ix : IndexSet⦄ ⦃smithay : Smithay⦄ where
  -- The body of `apply_window_rules_and_send_initial_configure`, past its `let … else`.
  unfoldable pub apply_rules :
      Unmapped → WindowRules → ClientRequests → Pinnacle → Option (Pinnacle × Unmapped)
  unfolding ruled_state tell_decoration send_initial configure_window_if_nontiled
  apply_rules u rules requests p =
      let w = u.window in
      let ruled = modify_window w (ruled_state rules requests) p in
      let told = tell_decoration w rules requests (configure_window_if_nontiled w ruled) in
      with_state u
        (post_initial_configure
          (not (is_some rules.layout_mode) && not (is_some requests.layout_mode))
          (ne_some_false rules.focused))
        (send_initial w told)

  unfoldable pub apply_window_rules_and_send_initial_configure :
      Unmapped → Pinnacle → Option (Pinnacle × Unmapped)
  unfolding apply_rules
  apply_window_rules_and_send_initial_configure u p = elim u.state [
    | waiting_for_tags requests ↦ none
    | waiting_for_rules rules requests ↦ apply_rules u rules requests p
    | post_initial_configure float focus ↦ none
  ]

  -- `WindowRules::default()`.
  abbrev pub no_rules : WindowRules
  no_rules = record {
    layout_mode = none;
    focused = none;
    floating_x = none;
    floating_y = none;
    floating_size = none;
    decoration_mode = none;
    tags = none;
  }

  unfoldable pub request_window_rules : Unmapped → Pinnacle → Option (Pinnacle × Unmapped)
  unfolding new_request apply_rules
  request_window_rules u p = elim u.state [
    | waiting_for_tags requests ↦
        let v : Unmapped = record u { state = waiting_for_rules no_rules requests } in
        let (q, sent) = new_request u.window p in
        if sent then some (q, v) else apply_rules v no_rules requests q
    | waiting_for_rules rules requests ↦ none
    | post_initial_configure float focus ↦ none
  ]
