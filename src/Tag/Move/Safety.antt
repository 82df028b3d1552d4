-- ===== src/Tag/Move/Safety.antt =====
-- src/api/tag.rs: the guarantee of `move_to_output`, and when it refuses.
use Prim.Native.String.{String}
use pinnacle.Common.{
  ℕ, ◌≡◌, refl, ◌∙◌, ap, fun_ext, Bool, true, false, not, ◌&&◌, ◌||◌, List, [], ◌∷◌, some, arith,
  any, retain, elem, elem-retain, Distinct, ◌==◌, if◌then◌else◌,
}
use pinnacle.Deps.{IndexSet}
use pinnacle.State.{Pinnacle}
use pinnacle.Output.{output_by_name, extend}
use pinnacle.Tag.Move.{
  TagMoveToOutputError, moved, refused, same_window_on_two_outputs, is_nil, move_tags,
  tags_on_other_outputs, check_windows, move_to_output_checked,
}
use pinnacle.Tag.Move.Sets.{
  touches, any-retain_eq, elem-extend, tags_on_other_outputs_lem, elem-elsewhere,
  check_windows-updates, check_windows-problems,
}
use pinnacle.Tag.Move.Outputs.{NamesOutput, move_tags-elem}

any-cong : (f g : ℕ → Bool) (xs : List ℕ) → ((a : ℕ) → f a ≡ g a) → any f xs ≡ any g xs
any-cong f g [] h = refl
any-cong f g (x ∷ xs) h = ground (arith, h x, any-cong f g xs h)

nil-elem : (xs : List ℕ) (i : ℕ) → is_nil xs ≡ true → elem i xs ≡ false
nil-elem [] i h = refl
nil-elem (x ∷ xs) i h = cc

any-elem : (f : ℕ → Bool) (a : ℕ) (xs : List ℕ) → elem a xs ≡ true → f a ≡ true → any f xs ≡ true
any-elem f a [] h e = cc
any-elem f a (x ∷ xs) h e = ground (arith, any-elem f a xs)

moved_if :
    (b : Bool) (a q : Pinnacle) (us ws : List ℕ) (e : TagMoveToOutputError)
    → (if b then moved a us else refused e) ≡ moved q ws
    → (b ≡ true) × (q ≡ a) × (ws ≡ us)
moved_if true a q us ws e h = (refl, cc, cc)
moved_if false a q us ws e h = cc

refused_if :
    (b : Bool) (a : Pinnacle) (us : List ℕ) (e d : TagMoveToOutputError)
    → (if b then moved a us else refused e) ≡ refused d
    → d ≡ e
refused_if true a us e d h = cc
refused_if false a us e d h = cc

module _ ⦃ix : IndexSet⦄ where
  touches-extend :
      (p : Pinnacle) (tags : List ℕ) (w : ℕ) → touches p (extend [] tags) w ≡ touches p tags w
  touches-extend p tags w =
      any-cong (λ t. elem t (extend [] tags)) (λ t. elem t tags) (p.window_states w).tags
        (λ t. elem-extend [] tags t)

  -- The windows that a move would tear apart, and the ids that `move_to_output` reports.
  abbrev pub elsewhere : Pinnacle → ℕ → List ℕ → List ℕ
  elsewhere p new tags = tags_on_other_outputs p new (extend [] tags)

  abbrev problems : Pinnacle → ℕ → List ℕ → List ℕ
  problems p new tags = (check_windows p (extend [] tags) (elsewhere p new tags) [] [] p.windows).0

  abbrev pub torn : Pinnacle → ℕ → List ℕ → ℕ → Bool
  torn p new tags w = touches p tags w && touches p (elsewhere p new tags) w

  elem-problems :
      (p : Pinnacle) (new : ℕ) (tags : List ℕ) (i : ℕ)
      → elem i (problems p new tags)
        ≡ any (λ w. torn p new tags w && ((p.window_states w).id == i)) p.windows
  elem-problems p new tags i =
      check_windows-problems p (extend [] tags) (elsewhere p new tags) [] [] p.windows i
      ∙ any-cong _ _ p.windows (λ w.
        ap (λ b. (b && touches p (elsewhere p new tags) w) && ((p.window_states w).id == i))
          (touches-extend p tags w))

  -- A move that is let through leaves no window torn.
  not_torn :
      (p : Pinnacle) (new : ℕ) (tags : List ℕ) (w : ℕ)
      → is_nil (problems p new tags) ≡ true
      → elem w p.windows ≡ true
      → torn p new tags w ≡ false
  not_torn p new tags w none_found mapped =
      let id = (p.window_states w).id in
      ground (
        arith,
        nil-elem (problems p new tags) id,
        elem-problems p new tags id,
        any-elem (λ v. torn p new tags v && ((p.window_states v).id == id)) w p.windows,
      )

  moved_inv :
      (p q : Pinnacle) (tags updates : List ℕ) (name : String) (new : ℕ)
      → output_by_name name p ≡ some new
      → move_to_output_checked tags name p ≡ moved q updates
      → (is_nil (problems p new tags) ≡ true)
        × (q ≡ move_tags new (extend [] tags) p.outputs p)
        × (updates ≡ retain (touches p (extend [] tags)) p.windows)
  unfolding move_to_output_checked
  moved_inv p q tags updates name new found ok =
      let (none_found, same, listed) =
        moved_if _ _ q _ updates _ (rw (found, move_to_output_checked) at ok) in
      (
        none_found,
        same,
        listed ∙ check_windows-updates p (extend [] tags) (elsewhere p new tags) [] [] p.windows,
      )

  -- When `move_to_output` succeeds, the new output has its old tags and the moved ones, every other
  -- output has lost the moved ones and no others, the windows to update are those with a moved tag,
  -- and none of these has a tag left on another output. (Outputs are told apart by their names.)
  pub move_to_output_lem :
      (p q : Pinnacle) (tags updates : List ℕ) (name : String) (new : ℕ)
      → output_by_name name p ≡ some new
      → move_to_output_checked tags name p ≡ moved q updates
      → Distinct p.outputs
      → ((o : ℕ) → elem o p.outputs ≡ true → NamesOutput p new o)
      → ((o t : ℕ)
          → elem o p.outputs ≡ true
          → elem t (q.output_states o).tags ≡ (
              if o == new
              then elem t (p.output_states o).tags || elem t tags
              else elem t (p.output_states o).tags && not (elem t tags)))
        × (updates ≡ retain (touches p tags) p.windows)
        × ((w o t : ℕ)
            → elem w updates ≡ true
            → elem o p.outputs ≡ true
            → (o == new) ≡ false
            → elem t (p.window_states w).tags ≡ true
            → elem t (q.output_states o).tags ≡ false)
  move_to_output_lem p q tags updates name new found ok d names = (on_outputs, listed, apart)
    where
      inv :
          (is_nil (problems p new tags) ≡ true)
          × (q ≡ move_tags new (extend [] tags) p.outputs p)
          × (updates ≡ retain (touches p (extend [] tags)) p.windows)
      inv = moved_inv p q tags updates name new found ok

      listed : updates ≡ retain (touches p tags) p.windows
      listed = inv.2 ∙ ap (λ (f : ℕ → Bool). retain f p.windows) (fun_ext (touches-extend p tags))

      on_outputs :
          (o t : ℕ)
          → elem o p.outputs ≡ true
          → elem t (q.output_states o).tags ≡ (
              if o == new
              then elem t (p.output_states o).tags || elem t tags
              else elem t (p.output_states o).tags && not (elem t tags))
      on_outputs o t here =
          ap (λ (x : Pinnacle). elem t (x.output_states o).tags) inv.1
          ∙ ground (
            arith,
            move_tags-elem new (extend [] tags) p.outputs p d names o t,
            elem-extend [] tags t,
          )

      apart :
          (w o t : ℕ)
          → elem w updates ≡ true
          → elem o p.outputs ≡ true
          → (o == new) ≡ false
          → elem t (p.window_states w).tags ≡ true
          → elem t (q.output_states o).tags ≡ false
      apart w o t is_update here other has = ground (
        arith,
        on_outputs o t here,
        listed,
        elem-retain (touches p tags) w p.windows,
        not_torn p new tags w inv.0,
        elem-elsewhere p new o t (extend [] tags) here other,
        elem-extend [] tags t,
        any-retain_eq (λ x. elem x (elsewhere p new tags)) t (p.window_states w).tags has,
      )

  -- A tag that does not move and that an output other than the new one has.
  abbrev pub stays_elsewhere : Pinnacle → (new : ℕ) → (tags : List ℕ) → ℕ → Bool
  stays_elsewhere p new tags t =
      not (elem t tags) && any (λ o. not (o == new) && elem t (p.output_states o).tags) p.outputs

  elsewhere_lem :
      (p : Pinnacle) (new : ℕ) (tags : List ℕ) (t : ℕ)
      → elem t (elsewhere p new tags) ≡ stays_elsewhere p new tags t
  elsewhere_lem p new tags t =
      tags_on_other_outputs_lem p new (extend [] tags) t
      ∙ ap (λ b. not b && any (λ o. not (o == new) && elem t (p.output_states o).tags) p.outputs)
          (elem-extend [] tags t)

  -- When `move_to_output` refuses because of windows, the ids that it reports are exactly those of
  -- the mapped windows with a moved tag and a tag that does not move and that an output other than the
  -- new one has.
  pub move_to_output_refused :
      (p : Pinnacle) (tags ids : List ℕ) (name : String) (new : ℕ)
      → output_by_name name p ≡ some new
      → move_to_output_checked tags name p ≡ refused (same_window_on_two_outputs ids)
      → (i : ℕ)
      → elem i ids
        ≡ any
            (λ w.
              touches p tags w
              && any (stays_elsewhere p new tags) (p.window_states w).tags
              && ((p.window_states w).id == i))
            p.windows
  unfolding move_to_output_checked
  move_to_output_refused p tags ids name new found refusal i =
      let reported = refused_if _ _ _ _ _ (rw (found, move_to_output_checked) at refusal) in
      let same : ids ≡ problems p new tags = ground (arith, reported) in
      ap (elem i) same
      ∙ elem-problems p new tags i
      ∙ any-cong _ _ p.windows (λ w.
        ap (λ b. touches p tags w && b && ((p.window_states w).id == i))
          (any-cong _ _ (p.window_states w).tags (elsewhere_lem p new tags)))
