-- ===== src/Window/Api.antt =====
-- src/api/window.rs: the operations on the tags of a window that configs call.
pub mod Tags
use pinnacle.Common.{
  ℕ, Bool, true, false, not, ◌&&◌, ◌||◌, List, [], ◌∷◌, Option, none, some, length, ltb,
  if◌then◌else◌, ◌==◌,
}
use pinnacle.Deps.{IndexSet}
use pinnacle.State.{Pinnacle, modify_window, emit, schedule_render}
use pinnacle.Tag.{tag_output}
use pinnacle.Window.Queries.{window_output}
use pinnacle.Layout.Request.{request_layout, update_xwayland_stacking_order}

-- `source_output.as_ref() != Some(&target_output)`.
abbrev is_not : Option ℕ → ℕ → Bool
is_not none o = true
is_not (some s) o = not (s == o)

module _ ⦃ix : IndexSet⦄ where
  -- `request_layout` and `schedule_render` for an output, if there is one.
  abbrev pub ask_layout : ℕ → Pinnacle → Pinnacle
  ask_layout o p = emit (schedule_render o) (request_layout o p)

  abbrev pub ask_layout_of : Option ℕ → Pinnacle → Pinnacle
  ask_layout_of none p = p
  ask_layout_of (some o) p = ask_layout o p

  unfoldable pub move_to_tag : ℕ → ℕ → Pinnacle → Pinnacle
  unfolding window_output request_layout tag_output update_xwayland_stacking_order
  move_to_tag w tag p =
      let source = window_output w p in
      let q =
        ask_layout_of source (modify_window w (λ s. record s { tags = (ix.insert [] tag).0 }) p) in
      elim (tag_output tag q) [
        | none ↦ update_xwayland_stacking_order q
        | some target ↦
            update_xwayland_stacking_order
              (if is_not source target && (q.tag_cells tag).active then ask_layout target q else q)
      ]

  -- The new set of tags: a toggle does not take the last tag.
  unfoldable pub tags_set : ℕ → Option Bool → List ℕ → List ℕ
  tags_set tag (some true) tags = (ix.insert tags tag).0
  tags_set tag (some false) tags = (ix.shift_remove tags tag).0
  tags_set tag none tags =
      if ix.contains tags tag
      then (if ltb 1 (length tags) then (ix.shift_remove tags tag).0 else tags)
      else (ix.insert tags tag).0

  unfoldable pub set_tag : ℕ → ℕ → Option Bool → Pinnacle → Pinnacle
  unfolding tags_set tag_output request_layout update_xwayland_stacking_order
  set_tag w tag set p =
      let q = modify_window w (λ s. record s { tags = tags_set tag set s.tags }) p in
      elim (tag_output tag q) [
        | none ↦ q
        | some output ↦ update_xwayland_stacking_order (ask_layout output q)
      ]
