-- ===== src/Tag/Move/Outputs.antt =====
-- src/api/tag.rs: what `move_to_output` does, and what it guards: no window ends up with tags on two
-- outputs.
use text.Mathlib.Text.{◌==◌ as str_eq}
use pinnacle.Common.{
  ℕ, ◌≡◌, refl, ◌∙◌, ap, sym, Bool, true, false, not, ◌&&◌, ◌||◌, List, [], ◌∷◌, arith, elem,
  Distinct, ◌==◌, ==_iff, if◌then◌else◌, Bool-cases, inl, inr,
}
use pinnacle.Deps.{IndexSet}
use pinnacle.State.{Pinnacle, OutputState, emit, schedule_render, modify_output}
use pinnacle.Layout.Request.{request_layout}
use pinnacle.Layout.Request.Frame.{request_layout-OnlyLogs}
use pinnacle.Tag.Move.{insert_all, shift_all, move_tags}
use pinnacle.Tag.Move.Sets.{elem-insert_all, elem-shift_all}

-- The output's name is the new output's only if it is that output.
abbrev pub NamesOutput : Pinnacle → ℕ → ℕ → Type 0
NamesOutput p new_output o =
    str_eq (p.output_states o).name (p.output_states new_output).name ≡ (o == new_output)

module _ ⦃ix : IndexSet⦄ where
  abbrev moved_set : Bool → List ℕ → List ℕ → List ℕ × Bool
  moved_set is_new tm tags = if is_new then insert_all tm tags false else shift_all tm tags false

  -- One round of the loop over the outputs, `is_new` the outcome of the name's test.
  abbrev round_on : Bool → List ℕ → ℕ → Pinnacle → Pinnacle
  round_on is_new tm o p =
      let r = moved_set is_new tm (p.output_states o).tags in
      let q = modify_output o (λ (s : OutputState). record s { tags = r.0 }) p in
      if r.1 then emit (schedule_render o) (request_layout o q) else q

  abbrev moved_output : Bool → List ℕ → OutputState → OutputState
  moved_output is_new tm s = record s { tags = (moved_set is_new tm s.tags).0 }

  abbrev move_round : ℕ → List ℕ → ℕ → Pinnacle → Pinnacle
  move_round new tm o p =
      round_on (str_eq (p.output_states o).name (p.output_states new).name) tm o p

  round_on-state :
      (is_new : Bool) (tm : List ℕ) (o : ℕ) (p : Pinnacle) (x : ℕ)
      → ((round_on is_new tm o p).output_states x
          ≡ (if x == o then moved_output is_new tm (p.output_states o) else p.output_states x))
        × ((round_on is_new tm o p).window_states ≡ p.window_states)
  round_on-state is_new tm o p x =
      let r = moved_set is_new tm (p.output_states o).tags in
      let q = modify_output o (λ (s : OutputState). record s { tags = r.0 }) p in
      let frame = request_layout-OnlyLogs o q in
      elim (Bool-cases r.1) [
        | inl e ↦ rw e (
          ap (λ (a : Pinnacle). a.output_states x) frame,
          ap (λ (a : Pinnacle). a.window_states) frame,
        )
        | inr e ↦ rw e (refl, refl)
      ]

  round_state :
      (new : ℕ) (tm : List ℕ) (o : ℕ) (p : Pinnacle) (x : ℕ)
      → NamesOutput p new o
      → (move_round new tm o p).output_states x
        ≡ (if x == o then moved_output (o == new) tm (p.output_states o) else p.output_states x)
  round_state new tm o p x h =
      (round_on-state _ tm o p x).0
      ∙ ap (λ b. if x == o then moved_output b tm (p.output_states o) else p.output_states x) h

  round_name :
      (new : ℕ) (tm : List ℕ) (o : ℕ) (p : Pinnacle) (x : ℕ)
      → ((move_round new tm o p).output_states x).name ≡ (p.output_states x).name
  round_name new tm o p x =
      let is_new = str_eq (p.output_states o).name (p.output_states new).name in
      ap (λ (s : OutputState). s.name) (round_on-state is_new tm o p x).0
      ∙ name_if (x == o) is_new (==_iff x o).0
    where
      name_if :
          (b is_new : Bool)
          → (b ≡ true → x ≡ o)
          → (if b then moved_output is_new tm (p.output_states o) else p.output_states x).name
            ≡ (p.output_states x).name
      name_if true is_new e = ap (λ y. (p.output_states y).name) (sym (e refl))
      name_if false is_new e = refl

  pub move_tags-elem :
      (new : ℕ) (tm os : List ℕ) (p : Pinnacle)
      → Distinct os
      → ((o : ℕ) → elem o os ≡ true → NamesOutput p new o)
      → (x t : ℕ)
      → elem t ((move_tags new tm os p).output_states x).tags ≡ (
          if elem x os
          then (if x == new
              then elem t (p.output_states x).tags || elem t tm
              else elem t (p.output_states x).tags && not (elem t tm))
          else elem t (p.output_states x).tags)
  unfolding move_tags
  move_tags-elem new tm [] p d h x t = refl
  move_tags-elem new tm (o ∷ os) p d h x t =
      let q = move_round new tm o p in
      let names : (z : ℕ) → elem z os ≡ true → NamesOutput q new z =
        λ z e. rw (round_name new tm o p z, round_name new tm o p new) (h z (ground arith)) in
      move_tags-elem new tm os q d.1 names x t
      ∙ ground (
        arith,
        round_state new tm o p x (h o (ground arith)),
        d.0,
        elem-insert_all tm (p.output_states o).tags false t,
        elem-shift_all tm (p.output_states o).tags false t,
      )
