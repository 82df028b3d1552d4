-- ===== src/Tag/Api/Remove.antt =====
-- src/api/tag.rs: what `remove` does to windows, outputs and saved states.
use Prim.Native.String.{String}
use pinnacle.Common.{
  ℕ, ◌≡◌, refl, ◌∙◌, ap, sym, false, not, List, [], ◌∷◌, arith, retain, elem, without, map, ◌==◌,
  if◌then◌else◌, Bool-cases, inl, inr,
}
use pinnacle.Deps.{IndexSet}
use pinnacle.State.{
  Pinnacle, OutputState, ConnectorSavedState, tag_removed, emit, schedule_render, modify_output,
  modify_window,
}
use pinnacle.Window.State.{WindowElementState}
use pinnacle.Layout.Request.Frame.{stacking-OnlyLogs, request_layout-OnlyLogs}
use pinnacle.Layout.Request.{request_layout, update_xwayland_stacking_order}
use pinnacle.Tag.Api.{
  shift_remove_all, removes_any, remove_from_windows, remove_from_outputs, remove_from_saved,
  signal_removed, remove,
}

-- The members that are not taken out, in their order.
abbrev pub others : List ℕ → List ℕ → List ℕ
others ts s = retain (λ t. not (elem t ts)) s

others-without : (a : ℕ) (ts s : List ℕ) → others ts (without a s) ≡ others (a ∷ ts) s
others-without a ts [] = refl
others-without a ts (x ∷ xs) = ground (arith, others-without a ts xs)

others-nil : (s : List ℕ) → others [] s ≡ s
others-nil [] = refl
others-nil (x ∷ xs) = ap (◌∷◌ x) (others-nil xs)

others_twice : (ts s : List ℕ) → others ts (others ts s) ≡ others ts s
others_twice ts [] = refl
others_twice ts (x ∷ xs) = ground (arith, others_twice ts xs)

abbrev pub without_tags : List ℕ → WindowElementState → WindowElementState
without_tags ts s = record s { tags = others ts s.tags }

abbrev pub output_without : List ℕ → OutputState → OutputState
output_without ts s = record s { tags = others ts s.tags }

abbrev pub saved_without : List ℕ → String × ConnectorSavedState → String × ConnectorSavedState
saved_without ts e = (e.0, record (e.1) { tags = others ts e.1.tags })

signal_removed-keeps :
    (ts : List ℕ) (p : Pinnacle)
    → signal_removed ts p ≡ record p { effects = (signal_removed ts p).effects }
unfolding signal_removed
signal_removed-keeps [] p = refl
signal_removed-keeps (t ∷ ts) p = signal_removed-keeps ts (emit (tag_removed (p.tag_cells t).id) p)

module _ ⦃ix : IndexSet⦄ where
  pub shift_remove_all-others : (ts s : List ℕ) → shift_remove_all ts s ≡ others ts s
  unfolding shift_remove_all
  shift_remove_all-others [] s = sym (others-nil s)
  shift_remove_all-others (t ∷ ts) s =
      rw (ix.shift_remove_lem s t)
        (shift_remove_all-others ts (without t s) ∙ others-without t ts s)

  window_states-after :
      (ts ws : List ℕ) (p : Pinnacle) (w : ℕ)
      → (remove_from_windows ts ws p).window_states w
        ≡ (if elem w ws then without_tags ts (p.window_states w) else p.window_states w)
  unfolding remove_from_windows
  window_states-after ts [] p w = refl
  window_states-after ts (v ∷ ws) p w =
      let q =
        modify_window v (λ (s : WindowElementState). record s { tags = shift_remove_all ts s.tags })
          p in
      ground (
        arith,
        window_states-after ts ws q w,
        shift_remove_all-others ts (p.window_states v).tags,
        others_twice ts (p.window_states v).tags,
      )

  from_windows-keeps :
      (ts ws : List ℕ) (p : Pinnacle)
      → remove_from_windows ts ws p
        ≡ record p { window_states = (remove_from_windows ts ws p).window_states }
  unfolding remove_from_windows
  from_windows-keeps ts [] p = refl
  from_windows-keeps ts (v ∷ ws) p = from_windows-keeps ts ws (
      modify_window v (λ (s : WindowElementState). record s { tags = shift_remove_all ts s.tags })
        p)

  -- One round of the loop over the outputs.
  abbrev strip_output : List ℕ → ℕ → Pinnacle → Pinnacle
  strip_output ts o p =
      let q =
        modify_output o (λ (s : OutputState). record s { tags = shift_remove_all ts s.tags }) p in
      if removes_any ts (p.output_states o).tags false
      then emit (schedule_render o) (request_layout o q)
      else q

  strip_output-state :
      (ts : List ℕ) (o : ℕ) (p : Pinnacle) (x : ℕ)
      → ((strip_output ts o p).output_states x
          ≡ (if x == o then output_without ts (p.output_states o) else p.output_states x))
        × ((strip_output ts o p).window_states ≡ p.window_states)
        × ((strip_output ts o p).connector_saved_states ≡ p.connector_saved_states)
        × ((strip_output ts o p).tag_cells ≡ p.tag_cells)
  strip_output-state ts o p x =
      let q =
        modify_output o (λ (s : OutputState). record s { tags = shift_remove_all ts s.tags }) p in
      let frame = request_layout-OnlyLogs o q in
      let shifted = shift_remove_all-others ts (p.output_states o).tags in
      elim (Bool-cases (removes_any ts (p.output_states o).tags false)) [
        | inl e ↦ rw e (ground (arith, frame, shifted))
        | inr e ↦ rw e (ground (arith, shifted))
      ]

  from_outputs-keeps :
      (ts os : List ℕ) (p : Pinnacle)
      → ((remove_from_outputs ts os p).window_states ≡ p.window_states)
        × ((remove_from_outputs ts os p).connector_saved_states ≡ p.connector_saved_states)
        × ((remove_from_outputs ts os p).tag_cells ≡ p.tag_cells)
  unfolding remove_from_outputs
  from_outputs-keeps ts [] p = (refl, refl, refl)
  from_outputs-keeps ts (o ∷ os) p =
      let step = strip_output-state ts o p o in
      let rest = from_outputs-keeps ts os (strip_output ts o p) in
      (rest.0 ∙ step.1, rest.1 ∙ step.2, rest.2 ∙ step.3)

  output_states-after :
      (ts os : List ℕ) (p : Pinnacle) (o : ℕ)
      → (remove_from_outputs ts os p).output_states o
        ≡ (if elem o os then output_without ts (p.output_states o) else p.output_states o)
  unfolding remove_from_outputs
  output_states-after ts [] p o = refl
  output_states-after ts (x ∷ os) p o =
      output_states-after ts os (strip_output ts x p) o
      ∙ ground (arith, (strip_output-state ts x p o).0, others_twice ts (p.output_states x).tags)

  saved-after :
      (ts : List ℕ) (saved : List (String × ConnectorSavedState))
      → remove_from_saved ts saved ≡ map (saved_without ts) saved
  unfolding remove_from_saved
  saved-after ts [] = refl
  saved-after ts ((name, s) ∷ rest) = rw (saved-after ts rest, shift_remove_all-others ts s.tags)

  remove-tail :
      (ts : List ℕ) (p : Pinnacle)
      → let q = remove_from_outputs ts p.outputs (remove_from_windows ts p.windows p) in
        ((remove ts p).window_states ≡ q.window_states)
        × ((remove ts p).output_states ≡ q.output_states)
        × ((remove ts p).tag_cells ≡ q.tag_cells)
        × ((remove ts p).connector_saved_states ≡ remove_from_saved ts q.connector_saved_states)
  unfolding remove
  remove-tail ts p =
      let q = remove_from_outputs ts p.outputs (remove_from_windows ts p.windows p) in
      let r : Pinnacle = record q {
        connector_saved_states = remove_from_saved ts q.connector_saved_states;
      } in
      let stacked = stacking-OnlyLogs r in
      let signalled = signal_removed-keeps ts (update_xwayland_stacking_order r) in
      (
        ap (λ (x : Pinnacle). x.window_states) signalled
            ∙ ap (λ (x : Pinnacle). x.window_states) stacked,
        ap (λ (x : Pinnacle). x.output_states) signalled
            ∙ ap (λ (x : Pinnacle). x.output_states) stacked,
        ap (λ (x : Pinnacle). x.tag_cells) signalled ∙ ap (λ (x : Pinnacle). x.tag_cells) stacked,
        ap (λ (x : Pinnacle). x.connector_saved_states) signalled
            ∙ ap (λ (x : Pinnacle). x.connector_saved_states) stacked,
      )

  -- After `remove` no mapped window, no output and no saved state of a disconnected output has any of
  -- the removed tags; the tags that stay keep their order, nothing else of a window or an output
  -- changes, and neither do the tags themselves.
  pub remove_lem :
      (ts : List ℕ) (p : Pinnacle)
      → ((w : ℕ)
          → (remove ts p).window_states w
            ≡ (if elem w p.windows then without_tags ts (p.window_states w) else p.window_states w))
        × ((o : ℕ)
            → (remove ts p).output_states o ≡ (
                if elem o p.outputs
                then output_without ts (p.output_states o)
                else p.output_states o))
        × ((remove ts p).connector_saved_states ≡ map (saved_without ts) p.connector_saved_states)
        × ((remove ts p).tag_cells ≡ p.tag_cells)
  remove_lem ts p =
      let q = remove_from_windows ts p.windows p in
      let kept = from_windows-keeps ts p.windows p in
      let outs = from_outputs-keeps ts p.outputs q in
      let tail = remove-tail ts p in
      (
        λ w.
            ap (λ (f : ℕ → WindowElementState). f w) (tail.0 ∙ outs.0)
            ∙ window_states-after ts p.windows p w,
        λ o.
            ap (λ (f : ℕ → OutputState). f o) tail.1
            ∙ output_states-after ts p.outputs q o
            ∙ ap
                (λ (x : Pinnacle).
                  if elem o p.outputs
                  then output_without ts (x.output_states o)
                  else x.output_states o)
                kept,
        tail.3
            ∙ saved-after ts _
            ∙ ap (map (saved_without ts))
                (outs.1 ∙ ap (λ (x : Pinnacle). x.connector_saved_states) kept),
        tail.2 ∙ outs.2 ∙ ap (λ (x : Pinnacle). x.tag_cells) kept,
      )
