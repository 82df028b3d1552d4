-- ===== src/Layout/Placing/Moved.antt =====
-- src/window/layout.rs: `move_window_to_output`.
use pinnacle.Common.{
  ℕ, Bool, true, false, ◌≡◌, refl, List, [], ◌∷◌, Option, some, elem, first?, find, ap, sym, ◌∙◌,
  arith, Bool-cases, inl, inr, ◌==◌, ==_refl, elem-retain,
}
use pinnacle.Geometry.{Rectangle}
use pinnacle.Deps.{IndexSet}
use pinnacle.State.{Pinnacle, modify_window}
use pinnacle.Output.{focused_tags, extend}
use pinnacle.Tag.{tag_output}
use pinnacle.Tag.Move.Sets.{elem-extend}
use pinnacle.Window.LayoutMode.{is_tiled}
use pinnacle.Window.State.{WindowElementState, floating_loc, set_floating_loc}
use pinnacle.Window.Queries.{window_output, set_tags_to_output, or_first}
use pinnacle.Layout.Request.{request_layout, next_layout_id}
use pinnacle.Layout.Placing.{Surroundings}
use pinnacle.Layout.Placing.Updates.{
  same_output, floating_loc_for_output, request_layout_if, move_window_to_output,
}

finds :
    (pred : ℕ → Bool) (xs : List ℕ) (x : ℕ)
    → elem x xs ≡ true
    → pred x ≡ true
    → ((y : ℕ) → elem y xs ≡ true → pred y ≡ true → y ≡ x)
    → find pred xs ≡ some x
finds pred [] x i h only = absurd (ground (arith, i))
finds pred (y ∷ ys) x i h only = elim (Bool-cases (pred y)) [
  | inl e ↦ rw e (ap some (only y (ground (arith, ==_refl y)) e))
  | inr e ↦
      let later : elem x ys ≡ true = elim (Bool-cases (y == x)) [
        | inl f ↦
            let same : y ≡ x = ground (arith, f) in
            absurd (ground (arith, sym e ∙ ap pred same ∙ h))
        | inr f ↦ ground (arith, f, i)
      ] in
      rw e (finds pred ys x later h (λ z j. only z (ground (arith, j))))
]

first_in :
    (s tags : List ℕ) (first : ℕ) (rest : List ℕ)
    → tags ≡ first ∷ rest
    → ((t : ℕ) → elem t s ≡ true → elem t tags ≡ true)
    → (t : ℕ) × (first? (or_first s tags) ≡ some t) × (elem t tags ≡ true)
first_in [] tags first rest e sub =
    (first, rw e refl, ap (elem first) e ∙ ground (arith, ==_refl first))
first_in (t ∷ s) tags first rest e sub = (t, refl, sub t (ground (arith, ==_refl t)))

module _ ⦃ix : IndexSet⦄ where
  -- The first tag that a window takes on an output is one of the output's.
  first_taken :
      (output first : ℕ) (rest : List ℕ) (p : Pinnacle)
      → let tags = (p.output_states output).tags in
        tags ≡ first ∷ rest
        → (t : ℕ) × (first? (or_first (extend [] (focused_tags output p)) tags) ≡ some t)
          × (elem t tags ≡ true)
  unfolding focused_tags
  first_taken output first rest p e =
      let tags = (p.output_states output).tags in
      first_in (extend [] (focused_tags output p)) tags first rest e (λ t i. ground (
        arith,
        i,
        elem-extend [] (focused_tags output p) t,
        elem-retain (λ t. (p.tag_cells t).active) t tags,
      ))

  -- What a window's output is read from.
  output_same :
      (w : ℕ) (p q : Pinnacle)
      → q.window_states ≡ p.window_states
      → q.output_states ≡ p.output_states
      → q.outputs ≡ p.outputs
      → window_output w q ≡ window_output w p
  unfolding window_output tag_output
  output_same w p q e f g = rw (e, f, g) refl

  -- A window with a first tag that only one output has.
  output_of_tag :
      (w target t : ℕ) (p : Pinnacle)
      → first? (p.window_states w).tags ≡ some t
      → elem t (p.output_states target).tags ≡ true
      → elem target p.outputs ≡ true
      → ((o : ℕ) → elem o p.outputs ≡ true → elem t (p.output_states o).tags ≡ true → o ≡ target)
      → window_output w p ≡ some target
  unfolding window_output tag_output
  output_of_tag w target t p e i there only =
      rw (window_output, e)
        (finds (λ o. ix.contains (p.output_states o).tags t) p.outputs target there
          (ix.contains_lem (p.output_states target).tags t ∙ i)
          (λ o j h. only o j (sym (ix.contains_lem (p.output_states o).tags t) ∙ h)))

  module _ (around : Surroundings) where
    request_keeps :
        (current : Option ℕ) (tiled : Bool) (p : Pinnacle)
        → ((request_layout_if around current tiled p).window_states ≡ p.window_states)
          × ((request_layout_if around current tiled p).output_states ≡ p.output_states)
          × ((request_layout_if around current tiled p).outputs ≡ p.outputs)
    unfolding request_layout next_layout_id
    request_keeps current tiled p = (ground arith, ground arith, ground arith)

    -- Moving a window to an output that is mapped and has tags, where no other output has any of these:
    -- the window is on that output then, at the floating location of that output, and the other windows
    -- are as they were.
    pub move_window_to_output_lem :
        (w target first : ℕ) (rest : List ℕ) (geo : Rectangle) (p : Pinnacle)
        → p.output_geometry target ≡ some geo
        → (p.output_states target).tags ≡ first ∷ rest
        → elem target p.outputs ≡ true
        → ((o t : ℕ)
            → elem o p.outputs ≡ true
            → elem t (p.output_states o).tags ≡ true
            → elem t (p.output_states target).tags ≡ true
            → o ≡ target)
        → same_output (window_output w p) target ≡ false
        → let q = move_window_to_output around w target p in
          (window_output w q ≡ some target)
          × (floating_loc (q.window_states w) ≡ some (floating_loc_for_output around target p))
          × ((v : ℕ) → v == w ≡ false → q.window_states v ≡ p.window_states v)
    unfolding move_window_to_output set_tags_to_output set_floating_loc floating_loc
        floating_loc_for_output
    move_window_to_output_lem w target first rest geo p g tags there only other =
        let r = set_tags_to_output w target p in
        let loc = floating_loc_for_output around target r in
        let moved = modify_window w (λ s. set_floating_loc s (some loc)) r in
        let tiled = is_tiled (moved.window_states w).layout_mode in
        let same : move_window_to_output around w target p
            ≡ request_layout_if around (window_output w p) tiled moved =
          rw (other, g, move_window_to_output) refl in
        let (ws, os, outs) = request_keeps (window_output w p) tiled moved in
        let (t, taken, i) = first_taken target first rest p tags in
        let first_tag : first? (moved.window_states w).tags ≡ some t = rw (==_refl w) taken in
        let states : (move_window_to_output around w target p).window_states ≡ moved.window_states =
          ap (λ (q : Pinnacle). q.window_states) same ∙ ws in
        (
          ap (window_output w) same
              ∙ output_same w moved (request_layout_if around (window_output w p) tiled moved) ws os
                  outs
              ∙ output_of_tag w target t moved first_tag i there (λ o j h. only o t j h i),
          ap (λ (f : ℕ → WindowElementState). floating_loc (f w)) states ∙ rw (==_refl w) refl,
          λ v n. ap (λ (f : ℕ → WindowElementState). f v) states ∙ rw n refl,
        )
