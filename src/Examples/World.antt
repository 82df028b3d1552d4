-- ===== src/Examples/World.antt =====
-- A compositor with two outputs, two tags on each, and three windows; and concrete instances of what
-- the other crates provide.
use pinnacle.Common.{
  ℕ, ◌+◌, refl, true, false, not, ◌||◌, List, [], ◌∷◌, ◌++◌, none, some, elem, any, without, ◌==◌,
  if◌then◌else◌,
}
use pinnacle.Common.Int.{pos, leb_ℤ}
use pinnacle.Deps.{IndexSet, Smithay}
use pinnacle.Geometry.{Rectangle, origin, no_size}
use pinnacle.State.{Pinnacle, TagInner, OutputState, RuleSender, WindowRuleState, window}
use pinnacle.Window.LayoutMode.{LayoutMode, FloatingOrTiled}
use pinnacle.Window.State.{WindowElementState, Toplevel, wayland}

instance abbrev pub list_sets : IndexSet
list_sets = record {
  contains = λ s x. elem x s;
  insert = λ s x. if elem x s then (s, false) else (s ++ x ∷ [], true);
  shift_remove = λ s x. (without x s, elem x s);
  is_disjoint = λ s t. not (any (λ x. elem x t) s);
  contains_lem = λ s x. refl;
  insert_lem = λ s x. refl;
  shift_remove_lem = λ s x. refl;
  is_disjoint_lem = λ s t. refl;
}

instance abbrev pub sizes : Smithay
sizes = record { size_is_empty = λ s. leb_ℤ s.w (pos 0) || leb_ℤ s.h (pos 0) }

abbrev pub tag_cell : ℕ → TagInner
tag_cell t = record { id = t + 10; name = "tag"; active = t == 0; defunct = false }

abbrev pub nowhere : Rectangle
nowhere = record { loc = origin; size = no_size }

abbrev pub output_named : ℕ → OutputState
output_named o = record {
  name = if o == 0 then "DP-1" else "HDMI-1";
  tags = if o == 0 then 0 ∷ 1 ∷ [] else 2 ∷ 3 ∷ [];
  enabled_global_id = some o;
  powered = true;
  current_location = origin;
  non_exclusive_zone = nowhere;
}

abbrev pub toplevel : Toplevel
toplevel = record {
  states = record {
    maximized = false;
    fullscreen = false;
    tiled_top = false;
    tiled_left = false;
    tiled_bottom = false;
    tiled_right = false;
  };
  size = none;
  decoration_mode = none;
  initial_configure_sent = false;
}

abbrev pub tiled_mode : LayoutMode
tiled_mode = record {
  base_mode = FloatingOrTiled.tiled;
  elevated_mode = none;
  client_requested_mode = none;
}

abbrev pub tags_of_window : ℕ → List ℕ
tags_of_window w = if w == 0 then 0 ∷ [] else if w == 1 then 0 ∷ 1 ∷ [] else 2 ∷ []

abbrev pub window_state : ℕ → WindowElementState
window_state w = record {
  id = w + 20;
  tags = tags_of_window w;
  layout_mode = tiled_mode;
  old_layout_mode = none;
  decoration_mode = none;
  floating_x = none;
  floating_y = none;
  floating_size = no_size;
  need_configure = false;
  decoration_surfaces = [];
  surface = wayland toplevel;
}

abbrev pub sender : RuleSender
sender = record { channel = 7; open_end = true; counter = 5 }

abbrev pub closed_sender : RuleSender
closed_sender = record { channel = 8; open_end = false; counter = 6 }

abbrev pub rule_state : WindowRuleState
rule_state = record {
  pending_windows = [];
  senders = closed_sender ∷ sender ∷ [];
  current_request_id = 0;
}

abbrev pub world : Pinnacle
world = record {
  tag_cells = tag_cell;
  next_tag = 4;
  tag_id_counter = 4;
  output_states = output_named;
  window_states = window_state;
  outputs = 0 ∷ 1 ∷ [];
  windows = 0 ∷ 1 ∷ 2 ∷ [];
  unmapped_windows = [];
  z_index_stack = window 0 ∷ window 1 ∷ window 2 ∷ [];
  output_focus_stack = record { stack = 1 ∷ 0 ∷ [] };
  keyboard_focus_stack = record { stack = 2 ∷ 1 ∷ 0 ∷ []; focused = true };
  xwayland_running = false;
  layout_client_connected = true;
  layout_request_id = 0;
  window_rule_state = rule_state;
  rule_counters = λ c. 0;
  connector_saved_states = [];
  output_geometry = λ o. none;
  effects = [];
}
