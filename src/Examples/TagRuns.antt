-- ===== src/Examples/TagRuns.antt =====
-- src/api/tag.rs and src/output.rs on the small compositor.
use pinnacle.Common.{
  ◌⊎◌, inl, inr, subst, sym, ℕ, ◌≡◌, refl, true, false, List, [], ◌∷◌, elem, arith,
}
use pinnacle.State.{Pinnacle, update}
use pinnacle.Examples.World.{list_sets, world, tag_cell}
use pinnacle.Output.{output_by_name, skip_to_defunct, add_tags}
use pinnacle.Tag.{tag_output}
use pinnacle.Tag.Api.{switch_to, remove}
use pinnacle.Tag.Api.Switch.{tag_cells-switch_to}
use pinnacle.Tag.Api.Remove.{remove_lem}
use pinnacle.Tag.Move.{
  moved, refused, same_window_on_two_outputs, move_to_output_checked, move_tags,
  tags_on_other_outputs,
}
use pinnacle.Tag.Move.Outputs.{NamesOutput}
use pinnacle.Tag.Move.Safety.{move_to_output_lem, move_to_output_refused}
use pinnacle.Output.AddTags.{add_tags_lem, add_tags_overwrites_live, Apart}

abbrev after_move : Pinnacle
after_move = move_tags 1 (0 ∷ 1 ∷ []) (0 ∷ 1 ∷ []) world

move_runs : move_to_output_checked (0 ∷ 1 ∷ []) "HDMI-1" world ≡ moved after_move (0 ∷ 1 ∷ [])
unfolding move_to_output_checked
move_runs = refl

one_of_two : (o : ℕ) → elem o (0 ∷ 1 ∷ []) ≡ true → (o ≡ 0) ⊎ (o ≡ 1)
one_of_two o h = ground arith

names : (o : ℕ) → elem o world.outputs ≡ true → NamesOutput world 1 o
names o h = elim (one_of_two o h) [
  | inl e ↦ subst (NamesOutput world 1) (sym e) refl
  | inr e ↦ subst (NamesOutput world 1) (sym e) refl
]

move_to_output_lem_example :
    (elem 0 (after_move.output_states 1).tags ≡ true)
    × (elem 0 (after_move.output_states 0).tags ≡ false)
move_to_output_lem_example =
    let on_outputs =
      (move_to_output_lem world after_move (0 ∷ 1 ∷ []) (0 ∷ 1 ∷ []) "HDMI-1" 1
        (unfold output_by_name in refl) move_runs (refl, (refl, tt)) names).0 in
    (on_outputs 1 0 refl, on_outputs 0 0 refl)

refusal_runs :
    move_to_output_checked (1 ∷ []) "HDMI-1" world ≡ refused (same_window_on_two_outputs (21 ∷ []))
unfolding move_to_output_checked
refusal_runs = refl

move_to_output_refused_example : elem 21 (21 ∷ []) ≡ true
unfolding tags_on_other_outputs
move_to_output_refused_example =
    move_to_output_refused world (1 ∷ []) (21 ∷ []) "HDMI-1" 1 (unfold output_by_name in refl)
      refusal_runs 21

tag_cells-switch_to_example : ((switch_to 1 world).tag_cells 0).active ≡ false
tag_cells-switch_to_example =
    let e = tag_cells-switch_to 1 0 world (unfold tag_output in refl) 0 in ground (arith, e)

remove_lem_example : ((remove (0 ∷ []) world).window_states 1).tags ≡ 1 ∷ []
remove_lem_example = let e = (remove_lem (0 ∷ []) world).0 1 in ground (arith, e)

-- The first tag of output 0 is defunct, the second is not.
abbrev one_defunct : Pinnacle
one_defunct = record world {
  tag_cells = update tag_cell 0 (record { id = 10; name = "old"; active = true; defunct = true });
}

apart : (news : List ℕ) → (elem 0 news ≡ false) × (elem 1 news ≡ false) → Apart (0 ∷ 1 ∷ []) news
apart news h a e = ground arith

add_tags_lem_example : ((add_tags 0 (4 ∷ []) one_defunct).tag_cells 0).id ≡ 14
unfolding skip_to_defunct
add_tags_lem_example =
    let e =
      (add_tags_lem 0 (4 ∷ []) one_defunct (refl, (refl, tt)) (apart (4 ∷ []) (refl, refl))).0 0 in
    ground (arith, e)

-- Both tags are defunct, except for the one that is asked about.
abbrev second_defunct : Pinnacle
second_defunct = record world {
  tag_cells = update tag_cell 1 (record { id = 11; name = "old"; active = true; defunct = true });
}

add_tags_overwrites_live_example :
    ((add_tags 0 (4 ∷ 5 ∷ []) one_defunct).tag_cells 1 ≡ tag_cell 5)
    × (elem 4 ((add_tags 0 (4 ∷ 5 ∷ []) one_defunct).output_states 0).tags ≡ false)
    × (elem 5 ((add_tags 0 (4 ∷ 5 ∷ []) one_defunct).output_states 0).tags ≡ false)
add_tags_overwrites_live_example =
    add_tags_overwrites_live 0 4 5 0 1 [] [] one_defunct (refl, (refl, tt))
      (apart (4 ∷ 5 ∷ []) (refl, refl)) refl refl refl refl
