-- ===== src/Tag/Api.antt =====
-- src/api/tag.rs: the operations on tags that configs call.
pub mod Switch
pub mod Remove
use Prim.Native.String.{String}
use pinnacle.Common.{
  ℕ, Bool, true, false, not, ◌||◌, List, [], ◌∷◌, ◌++◌, Option, none, some, retain, first?, ◌==◌,
  if◌then◌else◌,
}
use pinnacle.Deps.{IndexSet, Smithay}
use pinnacle.State.{
  Pinnacle, ConnectorSavedState, Unmapped, UnmappedState, waiting_for_tags, waiting_for_rules,
  post_initial_configure, tag_active, tag_created, tag_removed, schedule_render, emit,
  modify_window, modify_output,
}
use pinnacle.Tag.{set_tag_active, new_tags, tag_output}
use pinnacle.Output.{output_by_name, add_tags}
use pinnacle.Layout.Request.{update_xwayland_stacking_order, request_layout}
use pinnacle.Window.Rules.Apply.{request_window_rules}

-- `if tag.set_active(b) { signal_state.tag_active.signal(tag) }`.
unfoldable pub set_active_signalling : ℕ → Bool → Pinnacle → Pinnacle
unfolding set_tag_active
set_active_signalling tag active p =
    let (q, changed) = set_tag_active tag active p in
    if changed then emit (tag_active (q.tag_cells tag).id (q.tag_cells tag).active) q else q

-- The loop of `switch_to` over the output's tags.
unfoldable pub deactivate : List ℕ → Pinnacle → Pinnacle
unfolding set_active_signalling
deactivate [] p = p
deactivate (t ∷ ts) p = deactivate ts (set_active_signalling t false p)

unfoldable pub signal_created : List ℕ → Pinnacle → Pinnacle
signal_created [] p = p
signal_created (t ∷ ts) p = signal_created ts (emit (tag_created (p.tag_cells t).id) p)

unfoldable pub signal_removed : List ℕ → Pinnacle → Pinnacle
signal_removed [] p = p
signal_removed (t ∷ ts) p = signal_removed ts (emit (tag_removed (p.tag_cells t).id) p)

abbrev pub toggle_or : Option Bool → Bool → Bool
toggle_or none active = not active
toggle_or (some b) active = b

module _ ⦃ix : IndexSet⦄ where
  -- What every change of the tags in view ends with.
  unfoldable pub refresh_output : ℕ → Pinnacle → Pinnacle
  unfolding request_layout update_xwayland_stacking_order
  refresh_output output p =
      emit (schedule_render output) (request_layout output (update_xwayland_stacking_order p))

  unfoldable pub set_active : ℕ → Option Bool → Pinnacle → Pinnacle
  unfolding tag_output set_active_signalling refresh_output
  set_active tag set p = elim (tag_output tag p) [
    | none ↦ p
    | some output ↦
        refresh_output output (set_active_signalling tag (toggle_or set (p.tag_cells tag).active) p)
  ]

  unfoldable pub switch_to : ℕ → Pinnacle → Pinnacle
  unfolding tag_output deactivate set_active_signalling refresh_output
  switch_to tag p = elim (tag_output tag p) [
    | none ↦ p
    | some output ↦
        refresh_output output
          (set_active_signalling tag true (deactivate (p.output_states output).tags p))
  ]

  -- The inner loops of `remove`: the tags taken out of a set, and whether one was in it.
  unfoldable pub shift_remove_all : List ℕ → List ℕ → List ℕ
  shift_remove_all [] s = s
  shift_remove_all (t ∷ ts) s = shift_remove_all ts (ix.shift_remove s t).0

  unfoldable pub removes_any : List ℕ → List ℕ → Bool → Bool
  removes_any [] s changed = changed
  removes_any (t ∷ ts) s changed =
      let (s', removed) = ix.shift_remove s t in removes_any ts s' (removed || changed)

  unfoldable pub remove_from_windows : List ℕ → List ℕ → Pinnacle → Pinnacle
  unfolding shift_remove_all
  remove_from_windows tags [] p = p
  remove_from_windows tags (w ∷ ws) p =
      remove_from_windows tags ws
        (modify_window w (λ s. record s { tags = shift_remove_all tags s.tags }) p)

  unfoldable pub remove_from_outputs : List ℕ → List ℕ → Pinnacle → Pinnacle
  unfolding shift_remove_all removes_any request_layout
  remove_from_outputs tags [] p = p
  remove_from_outputs tags (o ∷ os) p =
      let q = modify_output o (λ s. record s { tags = shift_remove_all tags s.tags }) p in
      remove_from_outputs tags os (
        if removes_any tags (p.output_states o).tags false
        then emit (schedule_render o) (request_layout o q)
        else q)

  unfoldable pub remove_from_saved :
      List ℕ → List (String × ConnectorSavedState) → List (String × ConnectorSavedState)
  unfolding shift_remove_all
  remove_from_saved tags [] = []
  remove_from_saved tags ((name, s) ∷ rest) =
      (name, record s { tags = shift_remove_all tags s.tags }) ∷ remove_from_saved tags rest

  unfoldable pub remove : List ℕ → Pinnacle → Pinnacle
  unfolding remove_from_windows remove_from_outputs remove_from_saved signal_removed
      update_xwayland_stacking_order
  remove tags p =
      let q = remove_from_outputs tags p.outputs (remove_from_windows tags p.windows p) in
      let r : Pinnacle = record q {
        connector_saved_states = remove_from_saved tags q.connector_saved_states;
      } in
      signal_removed tags (update_xwayland_stacking_order r)

abbrev first_only : List ℕ → List ℕ
first_only [] = []
first_only (t ∷ ts) = t ∷ []

abbrev with_unmapped :
    Unmapped → Option (Pinnacle × List Unmapped) → Option (Pinnacle × List Unmapped)
with_unmapped u none = none
with_unmapped u (some (p, us)) = some (p, u ∷ us)

abbrev is_nil : List ℕ → Bool
is_nil [] = true
is_nil (x ∷ xs) = false

module _ ⦃ix : IndexSet⦄ ⦃smithay : Smithay⦄ where
  -- One round of the loop of `add` over the unmapped windows: one that waits for tags takes the
  -- first new tag, and rules are requested for it. `none` is a panic.
  unfoldable pub give_tag : List ℕ → Unmapped → Pinnacle → Option (Pinnacle × Unmapped)
  unfolding request_window_rules
  give_tag tags u p = elim u.state [
    | waiting_for_tags requests ↦
        request_window_rules u (modify_window u.window (λ s. record s { tags = first_only tags }) p)
    | waiting_for_rules rules requests ↦ some (p, u)
    | post_initial_configure float focus ↦ some (p, u)
  ]

  unfoldable pub give_tags : List ℕ → List Unmapped → Pinnacle → Option (Pinnacle × List Unmapped)
  unfolding give_tag
  give_tags tags [] p = some (p, [])
  give_tags tags (u ∷ us) p = elim (give_tag tags u p) [
    | none ↦ none
    | some (q, v) ↦ with_unmapped v (give_tags tags us q)
  ]

  -- `mem::take` of the unmapped windows, the loop, and their return.
  unfoldable pub give_tags_to_unmapped : List ℕ → Pinnacle → Option Pinnacle
  unfolding give_tags
  give_tags_to_unmapped tags p =
      elim (give_tags tags p.unmapped_windows (record p { unmapped_windows = [] })) [
        | none ↦ none
        | some (q, us) ↦ some (record q { unmapped_windows = us })
      ]

  unfoldable pub add : List String → String → Pinnacle → Option (Pinnacle × List ℕ)
  unfolding output_by_name new_tags add_tags give_tags_to_unmapped update_xwayland_stacking_order
      signal_created
  add names output_name p = elim (output_by_name output_name p) [
    | none ↦ some (p, [])
    | some output ↦
        let (tags, q) = new_tags names p in
        let r = add_tags output tags q in
        elim (if is_nil tags then some r else give_tags_to_unmapped tags r) [
          | none ↦ none
          | some s ↦ some (signal_created tags (update_xwayland_stacking_order s), tags)
        ]
  ]
