-- ===== src/Tag/Move.antt =====
-- src/api/tag.rs: `move_to_output`, its checks and the move of the tags between the outputs. The
-- windows' geometry, which follows the move, is not modelled here.
pub mod Sets
pub mod Safety
pub mod Outputs
use Prim.Native.String.{String}
use text.Mathlib.Text.{◌==◌ as str_eq}
use pinnacle.Common.{
  ℕ, Bool, true, false, not, ◌||◌, ◌&&◌, List, [], ◌∷◌, ◌++◌, Option, none, some, retain, ◌==◌,
  if◌then◌else◌,
}
use pinnacle.Deps.{IndexSet}
use pinnacle.State.{Pinnacle, schedule_render, emit, modify_output}
use pinnacle.Output.{output_by_name, extend}
use pinnacle.Layout.Request.{request_layout}

pub data TagMoveToOutputError : Type 0 where
  output_does_not_exist : TagMoveToOutputError
  same_window_on_two_outputs : List ℕ → TagMoveToOutputError

pub data MoveResult : Type 0 where
  moved : Pinnacle → (windows_to_update : List ℕ) → MoveResult
  refused : TagMoveToOutputError → MoveResult

abbrev is_nil : List ℕ → Bool
is_nil [] = true
is_nil (x ∷ xs) = false

-- `outputs.iter().filter(…).flat_map(|output| tags)`.
abbrev pub tags_of_outputs : Pinnacle → List ℕ → List ℕ
tags_of_outputs p [] = []
tags_of_outputs p (o ∷ os) = (p.output_states o).tags ++ tags_of_outputs p os

module _ ⦃ix : IndexSet⦄ where
  unfoldable pub tags_on_other_outputs : Pinnacle → ℕ → List ℕ → List ℕ
  unfolding extend
  tags_on_other_outputs p new_output to_move = extend [] (
      retain (λ t. not (ix.contains to_move t))
        (tags_of_outputs p (retain (λ o. not (o == new_output)) p.outputs)))

  -- The loop over the windows: the ids of those that would be on two outputs, and the windows that
  -- the move is about.
  unfoldable pub check_windows :
      Pinnacle → List ℕ → List ℕ → List ℕ → List ℕ → List ℕ → List ℕ × List ℕ
  check_windows p to_move elsewhere problems updates [] = (problems, updates)
  check_windows p to_move elsewhere problems updates (w ∷ ws) =
      let tags = (p.window_states w).tags in
      let affected = not (ix.is_disjoint tags to_move) in
      let stays = not (ix.is_disjoint tags elsewhere) in
      check_windows p to_move elsewhere
        (if affected && stays then (ix.insert problems (p.window_states w).id).0 else problems)
        (if affected then updates ++ w ∷ [] else updates) ws

  -- The sets of the inner loops, and whether they changed.
  unfoldable pub insert_all : List ℕ → List ℕ → Bool → List ℕ × Bool
  insert_all [] s changed = (s, changed)
  insert_all (t ∷ ts) s changed =
      let (s', inserted) = ix.insert s t in insert_all ts s' (inserted || changed)

  unfoldable pub shift_all : List ℕ → List ℕ → Bool → List ℕ × Bool
  shift_all [] s changed = (s, changed)
  shift_all (t ∷ ts) s changed =
      let (s', removed) = ix.shift_remove s t in shift_all ts s' (removed || changed)

  -- The loop over the outputs, which tells the new one by its name.
  unfoldable pub move_tags : ℕ → List ℕ → List ℕ → Pinnacle → Pinnacle
  unfolding insert_all shift_all request_layout
  move_tags new_output to_move [] p = p
  move_tags new_output to_move (o ∷ os) p =
      let tags = (p.output_states o).tags in
      let (tags', changed) =
        if str_eq (p.output_states o).name (p.output_states new_output).name
        then insert_all to_move tags false
        else shift_all to_move tags false in
      let q = modify_output o (λ s. record s { tags = tags' }) p in
      move_tags new_output to_move os
        (if changed then emit (schedule_render o) (request_layout o q) else q)

  unfoldable pub move_to_output_checked : List ℕ → String → Pinnacle → MoveResult
  unfolding output_by_name extend tags_on_other_outputs check_windows move_tags
  move_to_output_checked tags output_name p = elim (output_by_name output_name p) [
    | none ↦ refused output_does_not_exist
    | some new_output ↦
        let to_move = extend [] tags in
        let (problems, updates) =
          check_windows p to_move (tags_on_other_outputs p new_output to_move) [] [] p.windows in
        if is_nil problems
        then moved (move_tags new_output to_move p.outputs p) updates
        else refused (same_window_on_two_outputs problems)
  ]
