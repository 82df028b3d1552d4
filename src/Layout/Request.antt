-- ===== src/Layout/Request.antt =====
-- src/layout.rs: asking the config for a layout; and the X11 stacking order of
-- src/handlers/xwayland.rs, which the same operations refresh.
pub mod Frame
use pinnacle.Common.{
  ℕ, ◌+◌, ◌%◌, Bool, true, false, not, ◌||◌, ◌&&◌, List, [], ◌∷◌, ◌++◌, Option, none, some, retain,
  any, length, map, is_some, if◌then◌else◌,
}
use pinnacle.Deps.{IndexSet}
use pinnacle.State.{
  Pinnacle, LayoutInfo, ZIndexElement, window, unmapping, layout_request, stacking_order,
  schedule_render, emit,
}
use pinnacle.Window.LayoutMode.{is_tiled, is_spilled}
use pinnacle.Window.Queries.{is_on_active_tag, is_x11_override_redirect, is_x11}
use pinnacle.Output.{focused_tags, extend}

-- `LayoutState::next_id`: the counter moved on, a `u32`.
unfoldable pub next_layout_id : Pinnacle → Pinnacle
next_layout_id p = record p { layout_request_id = (p.layout_request_id + 1) % 4294967296 }

-- `filter_map(|z| z.window())`.
abbrev pub z_windows : List ZIndexElement → List ℕ
z_windows [] = []
z_windows (window w ∷ zs) = w ∷ z_windows zs
z_windows (unmapping u ∷ zs) = z_windows zs

-- The order, bottom to top, that Xwayland is told.
unfoldable pub x11_order : Pinnacle → List ℕ
unfolding is_on_active_tag is_x11_override_redirect is_x11
x11_order p =
    let managed = retain (λ w. not (is_x11_override_redirect w p)) (z_windows p.z_index_stack) in
    let active = retain (λ w. is_on_active_tag w p) managed in
    let inactive = retain (λ w. not (is_on_active_tag w p)) managed in
    retain (λ w. is_x11 w p) inactive ++ retain (λ w. is_x11 w p) active

unfoldable pub update_xwayland_stacking_order : Pinnacle → Pinnacle
unfolding x11_order
update_xwayland_stacking_order p =
    if p.xwayland_running then emit (stacking_order (x11_order p)) p else p

module _ ⦃ix : IndexSet⦄ where
  -- The windows, override-redirect ones apart, with a tag in focus on the output.
  unfoldable pub windows_on_focused_tags : ℕ → Pinnacle → List ℕ
  unfolding focused_tags extend is_x11_override_redirect
  windows_on_focused_tags output p =
      let focused = extend [] (focused_tags output p) in
      retain (λ w. any (λ t. ix.contains focused t) (p.window_states w).tags)
        (retain (λ w. not (is_x11_override_redirect w p)) p.windows)

  -- The request that is sent: the number of tiled and spilled windows, and the tags in focus.
  unfoldable pub layout_info : ℕ → Pinnacle → LayoutInfo
  unfolding windows_on_focused_tags focused_tags is_tiled is_spilled
  layout_info output p = record {
    request_id = p.layout_request_id;
    output_name = (p.output_states output).name;
    window_count =
        length (
          retain
            (λ w.
              is_tiled (p.window_states w).layout_mode
              || is_spilled (p.window_states w).layout_mode)
            (windows_on_focused_tags output p))
        % 4294967296;
    tag_ids = map (λ t. (p.tag_cells t).id) (focused_tags output p);
  }

  unfoldable pub request_layout : ℕ → Pinnacle → Pinnacle
  unfolding next_layout_id layout_info
  request_layout output p =
      let q = next_layout_id p in
      if not (is_some (p.output_states output).enabled_global_id)
      then p
      else if q.layout_client_connected
      then emit (layout_request (layout_info output q)) q
      else q
