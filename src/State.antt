-- ===== src/State.antt =====
-- src/state.rs: the state of the compositor that the modelled operations read and write. Windows,
-- outputs and tags are shared objects (`Rc`, `Arc`): a number is a pointer, and a function from
-- pointers holds the contents. `effects` lists, oldest first, what was sent out: signals to
-- configs, requests to clients, calls of the backend.
use Prim.Native.String.{String}
use pinnacle.Common.{ℕ, Bool, List, [], ◌∷◌, ◌++◌, Option, ◌==◌, if◌then◌else◌}
use pinnacle.Common.Int.{ℤ}
use pinnacle.Geometry.{Point, Size, Rectangle}
use pinnacle.Window.LayoutMode.{LayoutMode, FullscreenOrMaximized}
use pinnacle.Window.State.{WindowElementState, DecorationMode}
use pinnacle.Focus.Stack.{OutputFocusStack, WindowKeyboardFocusStack}

-- src/tag.rs: what a tag's `Arc` points to.
pub record TagInner : Type 0 where
  pub id : ℕ
  pub name : String
  pub active : Bool
  pub defunct : Bool

-- src/output.rs: an output with the state attached to it.
pub record OutputState : Type 0 where
  pub name : String
  pub tags : List ℕ
  pub enabled_global_id : Option ℕ
  pub powered : Bool
  pub current_location : Point
  pub non_exclusive_zone : Rectangle

-- src/config.rs: the part of `ConnectorSavedState` that is about tags.
pub record ConnectorSavedState : Type 0 where
  pub tags : List ℕ
  pub powered : Option Bool

-- src/window.rs.
pub data ZIndexElement : Type 0 where
  window unmapping : ℕ → ZIndexElement

-- src/window/rules.rs.
pub record WindowRules : Type 0 where
  pub layout_mode : Option LayoutMode
  pub focused : Option Bool
  pub floating_x : Option ℤ
  pub floating_y : Option ℤ
  pub floating_size : Option Size
  pub decoration_mode : Option DecorationMode
  pub tags : Option (List ℕ)

pub record ClientRequests : Type 0 where
  pub layout_mode : Option FullscreenOrMaximized
  pub decoration_mode : Option DecorationMode

-- src/window.rs.
pub data UnmappedState : Type 0 where
  waiting_for_tags : ClientRequests → UnmappedState
  waiting_for_rules : WindowRules → ClientRequests → UnmappedState
  post_initial_configure : (attempt_float_on_map focus : Bool) → UnmappedState

pub record Unmapped : Type 0 where
  pub window : ℕ
  pub state : UnmappedState

-- A sender of rule requests: its channel, whether that is still open, and the pointer of the
-- counter that holds the last request its client has answered.
pub record RuleSender : Type 0 where
  pub channel : ℕ
  pub open_end : Bool
  pub counter : ℕ

pub record PendingWindowRuleRequest : Type 0 where
  pub request_id : ℕ
  pub waiting_on : List ℕ

pub record WindowRuleState : Type 0 where
  pub pending_windows : List (ℕ × PendingWindowRuleRequest)
  pub senders : List RuleSender
  pub current_request_id : ℕ

-- src/layout.rs.
pub record LayoutInfo : Type 0 where
  pub request_id : ℕ
  pub output_name : String
  pub window_count : ℕ
  pub tag_ids : List ℕ

pub data Effect : Type 0 where
  tag_active : (id : ℕ) (active : Bool) → Effect
  tag_created tag_removed : (id : ℕ) → Effect
  output_focused : (output : ℕ) → Effect
  layout_request : LayoutInfo → Effect
  rule_request : (channel request_id window_id : ℕ) → Effect
  schedule_render : (output : ℕ) → Effect
  stacking_order : (windows : List ℕ) → Effect
  send_configure send_pending_configure : (window : ℕ) → Effect
  send_frame : (window output : ℕ) → Effect
  x11_configure : (window : ℕ) → Rectangle → Effect
  x11_set_maximized x11_set_fullscreen x11_set_mapped : (window : ℕ) → Bool → Effect
  kde_decoration_mode : (window : ℕ) → DecorationMode → Effect
  raise_element : (window : ℕ) → Effect

pub record Pinnacle : Type 0 where
  pub tag_cells : ℕ → TagInner
  pub next_tag : ℕ  -- the next pointer that `Arc::new` gives a tag
  pub tag_id_counter : ℕ  -- `TAG_ID_COUNTER`, a `u32`
  pub output_states : ℕ → OutputState
  pub window_states : ℕ → WindowElementState
  pub outputs : List ℕ
  pub windows : List ℕ
  pub unmapped_windows : List Unmapped
  pub z_index_stack : List ZIndexElement
  pub output_focus_stack : OutputFocusStack
  pub keyboard_focus_stack : WindowKeyboardFocusStack
  pub xwayland_running : Bool
  pub layout_client_connected : Bool  -- `layout_request_sender.is_some()`
  pub layout_request_id : ℕ  -- `LayoutState::current_id`, a `u32`
  pub window_rule_state : WindowRuleState
  pub rule_counters : ℕ → ℕ
  pub connector_saved_states : List (String × ConnectorSavedState)
  pub output_geometry : ℕ → Option Rectangle  -- `Space::output_geometry`
  pub effects : List Effect

-- One more entry of the log.
abbrev pub emit : Effect → Pinnacle → Pinnacle
emit e p = record p { effects = p.effects ++ e ∷ [] }

-- A write through a pointer.
abbrev pub update {ℓ} : {A : Type ℓ} → (ℕ → A) → ℕ → A → (ℕ → A)
update f p a q = if q == p then a else f q

-- `with_state_mut` on a window and on an output.
abbrev pub modify_window : ℕ → (WindowElementState → WindowElementState) → Pinnacle → Pinnacle
modify_window w f p = record p { window_states = update p.window_states w (f (p.window_states w)) }

abbrev pub modify_output : ℕ → (OutputState → OutputState) → Pinnacle → Pinnacle
modify_output o f p = record p { output_states = update p.output_states o (f (p.output_states o)) }
