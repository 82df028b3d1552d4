-- ===== src/Client/Generators/Shown.antt =====
-- api/rust/src/layout/generators.rs, src/api/layout/v1.rs, src/layout/tree.rs, src/layout.rs: from a
-- generator's tree in the client to the places of the windows.
use pinnacle.Common.{
  is_some, ℕ, zero, suc, ◌<◌, ◌≡◌, refl, Bool, true, false, not, ◌&&◌, ◌||◌, List, [], ◌∷◌, some,
  length, elem, retain, arith, ap, sym, ◌∙◌,
}
use pinnacle.Geometry.{Rectangle, add_point}
use pinnacle.Deps.{IndexSet, Smithay}
use pinnacle.Layout.Tree.{LayoutNode, LeafDefaults, new_tree}
use pinnacle.Layout.Tree.Walk.{Placed, Rounding, compute_geos}
use pinnacle.Layout.Received.{try_from}
use pinnacle.Layout.Pending.{add_for_output, take_next_for_output}
use pinnacle.Layout.Placing.{Mapping, Desktop, Surroundings}
use pinnacle.Layout.Placing.FromTree.{
  zip_tiles, all_entries, windows_on, has_focused_tag, tiled_windows, entries_of, skip,
  update_windows_from_tree,
}
use pinnacle.Layout.Placing.FromTree.Spilled.{spilled_at}
use pinnacle.Layout.Placing.FromTree.Configured.{target_of}
use pinnacle.Layout.Placing.FromTree.Shared.{firsts, windows_of}
use pinnacle.Layout.Placing.FromTree.Whole.{update_windows_from_tree_lem}
use pinnacle.Client.Node.{Floats}
use pinnacle.Client.Sent.{api_node}
use pinnacle.Client.Generators.Given.{Generator, FillsTiles, generate, generate_given_out}

firsts-length : (ws : List ℕ) (n : ℕ) → length ws ≡ n → firsts n ws ≡ ws
firsts-length [] zero h = refl
firsts-length [] (suc n) h = refl
firsts-length (w ∷ ws) zero h = absurd (omega (arith, h))
firsts-length (w ∷ ws) (suc n) h = ap (◌∷◌ w) (firsts-length ws n (omega (arith, h)))

skip-length : (ws : List ℕ) (n : ℕ) → length ws ≡ n → skip n ws ≡ []
skip-length [] zero h = refl
skip-length [] (suc n) h = refl
skip-length (w ∷ ws) zero h = absurd (omega (arith, h))
skip-length (w ∷ ws) (suc n) h = skip-length ws n (omega (arith, h))

no_windows : (us : List (ℕ × Rectangle)) → windows_of us ≡ [] → us ≡ []
no_windows [] h = refl
no_windows (u ∷ us) h = cc

module _ {F : Type 0} ⦃fl : Floats F⦄ ⦃ix : IndexSet⦄ ⦃smithay : Smithay⦄ where
  -- Where a generator, which is a line, a master stack with a master, a dwindle, a spiral or a corner,
  -- makes a tree for as many windows, one or more, as take part in the layout of an output that is
  -- mapped: the tree arrives, `compute_geos` ends on it with more rounds than windows, and
  -- `update_windows_from_tree` adds one transaction to those that wait for the output. It maps these
  -- windows and those that waited for the layout, and no others, each to where its last entry has it:
  -- the entries are the tiles in their order, moved to the part of the output that is left free, and
  -- then the updates that waited. None of the windows of the layout is spilled then.
  pub generate_shown :
      (rounding : Rounding F) (layout : ℕ → Placed F) (defaults : LeafDefaults F) (zero_f one_f : F)
      (around : Surroundings) (g : Generator F) (n rounds output : ℕ) (output_geo : Rectangle)
      (is_resize : Bool) (d : Desktop)
      → FillsTiles g
      → suc n < rounds
      → d.pinnacle.output_geometry output ≡ some output_geo
      → let in_view = retain (has_focused_tag output d.pinnacle) (windows_on output d.pinnacle) in
        let ws = tiled_windows in_view d.pinnacle in
        let updates = entries_of (take_next_for_output output d.pending_window_updates).0 in
        let zone = (d.pinnacle.output_states output).non_exclusive_zone in
        length ws ≡ suc n
        → (root : LayoutNode F) × (gs : List (Rectangle × ℕ)) × (e : Desktop) × (m : Mapping)
          × (try_from zero_f one_f (api_node (generate g (suc n))) ≡ some root)
          × (compute_geos rounding layout rounds (new_tree defaults root) ≡ some gs)
          × (update_windows_from_tree around output (some gs) is_resize d ≡ some e)
          × (e.pending_transactions ≡ add_for_output output m d.pending_transactions)
          × ((v : ℕ) → is_some (m.map_to v) ≡ (elem v ws || elem v (windows_of updates)))
          × ((v : ℕ)
              → m.map_to v
                ≡ target_of v
                    (all_entries (add_point output_geo.loc zone.loc) (zip_tiles ws gs) [] updates))
          × ((v : ℕ) → elem v ws ≡ true → spilled_at e.pinnacle v ≡ false)
  generate_shown rounding layout defaults zero_f one_f around g n rounds output output_geo is_resize
        d m r h l =
      let ws =
        tiled_windows (retain (has_focused_tag output d.pinnacle) (windows_on output d.pinnacle))
          d.pinnacle in
      let (root, gs, arrives, given, count) =
        generate_given_out rounding layout defaults zero_f one_f g n rounds m r in
      let (e, mapping, placed, queued, (windows, (spilled, none_left, maps)), after) =
        update_windows_from_tree_lem around output output_geo gs is_resize d h in
      let all : firsts (length gs) ws ≡ ws = firsts-length ws (length gs) (l ∙ sym count) in
      (
        root,
        gs,
        e,
        mapping,
        arrives,
        given,
        placed,
        queued,
        windows,
        λ v.
            maps v
            ∙ ap
                (λ (us : List (ℕ × Rectangle)). target_of v (
                  all_entries
                    (add_point output_geo.loc
                      (d.pinnacle.output_states output).non_exclusive_zone.loc)
                    (zip_tiles ws gs) us
                    (entries_of (take_next_for_output output d.pending_window_updates).0)))
                (no_windows spilled (none_left ∙ skip-length ws (length gs) (l ∙ sym count))),
        λ v i.
            after v
            ∙ ap (λ (b : Bool). not b && (elem v (skip (length gs) ws) || spilled_at d.pinnacle v))
                (ap (elem v) all ∙ i),
      )
