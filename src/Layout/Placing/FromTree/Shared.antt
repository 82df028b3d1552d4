-- ===== src/Layout/Placing/FromTree/Shared.antt =====
-- src/layout.rs: how the windows of an output share the tiles of a layout.
use pinnacle.Common.{
  is_some, elem-append, subst, ℕ, zero, suc, Bool, true, false, not, ◌||◌, ◌&&◌, ◌≡◌, refl, List,
  [], ◌∷◌, ◌++◌, some, map, elem, length, ap, ap₂, sym, ◌∙◌, arith, retain, elem-retain,
}
use mathlib.Core.List.{append-nil}
use pinnacle.Geometry.{Point, Rectangle, add_point}
use pinnacle.Deps.{IndexSet, Smithay}
use pinnacle.Layout.Pending.{add_for_output, take_next_for_output}
use pinnacle.Layout.Placing.{Mapping, Desktop, Surroundings}
use pinnacle.Layout.Placing.Updates.{no_mapping}
use pinnacle.Layout.Placing.FromTree.{
  zip_tiles, skip, entries_of, tiled_windows, tiled_entry, other_entry, place_tiles, all_entries,
  give_places,
}
use pinnacle.Layout.Placing.FromTree.Spilled.{
  spilled_at, takes_part, spill_all_lem, tiled_windows_kept,
}
use pinnacle.Layout.Placing.FromTree.Configured.{
  names, target_of, is_some-target_of, or_else-none, made_tiled, configure_all_lem,
}

abbrev pub firsts : ℕ → List ℕ → List ℕ
firsts zero xs = []
firsts (suc n) [] = []
firsts (suc n) (x ∷ xs) = x ∷ firsts n xs

abbrev pub windows_of : List (ℕ × Rectangle) → List ℕ
windows_of us = map (λ (t : ℕ × Rectangle). t.0) us

names-append : (xs ys : List (ℕ × Rectangle × Bool)) → names (xs ++ ys) ≡ names xs ++ names ys
names-append [] ys = refl
names-append ((w, geo, b) ∷ xs) ys = ap (◌∷◌ w) (names-append xs ys)

made_tiled-append :
    (xs ys : List (ℕ × Rectangle × Bool)) → made_tiled (xs ++ ys) ≡ made_tiled xs ++ made_tiled ys
made_tiled-append [] ys = refl
made_tiled-append ((w, geo, true) ∷ xs) ys = ap (◌∷◌ w) (made_tiled-append xs ys)
made_tiled-append ((w, geo, false) ∷ xs) ys = made_tiled-append xs ys

names-others : (us : List (ℕ × Rectangle)) → names (map other_entry us) ≡ windows_of us
names-others [] = refl
names-others ((w, geo) ∷ us) = ap (◌∷◌ w) (names-others us)

made_tiled-others : (us : List (ℕ × Rectangle)) → made_tiled (map other_entry us) ≡ []
made_tiled-others [] = refl
made_tiled-others ((w, geo) ∷ us) = made_tiled-others us

names-tiled :
    (by : Point) (ws : List ℕ) (gs : List (Rectangle × ℕ))
    → (names (map (tiled_entry by) (zip_tiles ws gs)) ≡ firsts (length gs) ws)
      × (made_tiled (map (tiled_entry by) (zip_tiles ws gs)) ≡ firsts (length gs) ws)
names-tiled by [] [] = (refl, refl)
names-tiled by [] ((geo, n) ∷ gs) = (refl, refl)
names-tiled by (w ∷ ws) [] = (refl, refl)
names-tiled by (w ∷ ws) ((geo, n) ∷ gs) =
    let (a, b) = names-tiled by ws gs in (ap (◌∷◌ w) a, ap (◌∷◌ w) b)

firsts-skip : (n : ℕ) (ws : List ℕ) → firsts n ws ++ skip n ws ≡ ws
firsts-skip zero ws = refl
firsts-skip (suc n) [] = refl
firsts-skip (suc n) (w ∷ ws) = ap (◌∷◌ w) (firsts-skip n ws)

elem-skip : (v n : ℕ) (ws : List ℕ) → elem v (skip n ws) ≡ true → elem v ws ≡ true
elem-skip v zero ws h = h
elem-skip v (suc n) [] h = h
elem-skip v (suc n) (w ∷ ws) h = ground (arith, elem-skip v n ws h)

retained_holds : (p : ℕ → Bool) (v : ℕ) (xs : List ℕ) → elem v (retain p xs) ≡ true → p v ≡ true
retained_holds p v xs h = ground (arith, elem-retain p v xs, h)

-- The windows of the three kinds of entries, and those that get a tile.
entries_lem :
    (by : Point) (ws : List ℕ) (gs : List (Rectangle × ℕ)) (spilled updates : List (ℕ × Rectangle))
    → windows_of spilled ≡ skip (length gs) ws
    → let entries = all_entries by (zip_tiles ws gs) spilled updates in
      (names entries ≡ ws ++ windows_of updates) × (made_tiled entries ≡ firsts (length gs) ws)
entries_lem by ws gs spilled updates h =
    let tiled = map (tiled_entry by) (zip_tiles ws gs) in
    let left = map other_entry spilled in
    let others = map other_entry updates in
    let (n, t) = names-tiled by ws gs in
    (
      names-append (tiled ++ left) others
          ∙ ap₂ ◌++◌ (names-append tiled left ∙ ap₂ ◌++◌ n (names-others spilled ∙ h))
              (names-others updates)
          ∙ ap (λ (xs : List ℕ). xs ++ windows_of updates) (firsts-skip (length gs) ws),
      made_tiled-append (tiled ++ left) others
          ∙ ap₂ ◌++◌ (made_tiled-append tiled left ∙ ap₂ ◌++◌ t (made_tiled-others spilled))
              (made_tiled-others updates)
          ∙ append-nil (firsts (length gs) ws ++ [])
          ∙ append-nil (firsts (length gs) ws),
    )

module _ ⦃ix : IndexSet⦄ ⦃smithay : Smithay⦄ where
  -- What a new transaction of an output maps: the windows of a layout, those of them that are spilled
  -- at places of their own, and the windows that waited for the layout.
  abbrev pub Maps :
      (by : Point) (ws : List ℕ) (gs : List (Rectangle × ℕ)) (updates : List (ℕ × Rectangle))
      → Mapping
      → Type 0
  Maps by ws gs updates m =
      ((v : ℕ) → is_some (m.map_to v) ≡ (elem v ws || elem v (windows_of updates)))
      × ((spilled : List (ℕ × Rectangle)) × (windows_of spilled ≡ skip (length gs) ws)
          × ((v : ℕ) → m.map_to v ≡ target_of v (all_entries by (zip_tiles ws gs) spilled updates)))

  give_places_lem :
      (output : ℕ) (output_geo zone : Rectangle) (in_view snapshots : List ℕ)
      (gs : List (Rectangle × ℕ)) (is_resize : Bool) (spilled : List (ℕ × Rectangle)) (d : Desktop)
      (ws : List ℕ)
      → tiled_windows in_view d.pinnacle ≡ ws
      → windows_of spilled ≡ skip (length gs) ws
      → let updates = entries_of (take_next_for_output output d.pending_window_updates).0 in
        let e = give_places output output_geo zone in_view snapshots gs is_resize spilled d in
        (m : Mapping) × (e.pending_transactions ≡ add_for_output output m d.pending_transactions)
        × Maps (add_point output_geo.loc zone.loc) ws gs updates m
        × ((v : ℕ)
            → spilled_at e.pinnacle v
              ≡ (not (elem v (firsts (length gs) ws)) && spilled_at d.pinnacle v))
  unfolding give_places
  give_places_lem output output_geo zone in_view snapshots gs is_resize spilled d ws e h =
      let updates = entries_of (take_next_for_output output d.pending_window_updates).0 in
      let by = add_point output_geo.loc zone.loc in
      let tiled = zip_tiles (tiled_windows in_view d.pinnacle) gs in
      let entries = all_entries by tiled spilled updates in
      let (maps, modes) = configure_all_lem output entries no_mapping.map_to d.pinnacle in
      let (n, t) =
        entries_lem by (tiled_windows in_view d.pinnacle) gs spilled updates
          (h ∙ ap (skip (length gs)) (sym e)) in
      (
        _,
        refl,
        (
          λ v.
              ap is_some (maps v ∙ or_else-none (target_of v entries))
              ∙ is_some-target_of v entries
              ∙ ap (elem v) (n ∙ ap (λ (xs : List ℕ). xs ++ windows_of updates) e)
              ∙ elem-append v ws (windows_of updates),
          (
            spilled,
            h,
            λ v.
                maps v
                ∙ or_else-none (target_of v entries)
                ∙ ap
                    (λ (xs : List ℕ).
                      target_of v (all_entries by (zip_tiles xs gs) spilled updates))
                    e,
          ),
        ),
        λ v.
            modes v
            ∙ ap (λ (xs : List ℕ). not (elem v xs) && spilled_at d.pinnacle v)
                (t ∙ ap (firsts (length gs)) e),
      )

module _ ⦃ix : IndexSet⦄ ⦃smithay : Smithay⦄ (around : Surroundings) where
  -- The windows in view that take part in the layout get its tiles in their order, and those that are
  -- left over are spilled: this never panics. One transaction more waits for the output, and it maps
  -- these windows and those that waited for the layout. A window that got a tile is spilled no longer,
  -- one that was left over is, and the others stay as they are.
  pub place_tiles_lem :
      (output : ℕ) (output_geo : Rectangle) (in_view snapshots : List ℕ) (gs : List (Rectangle × ℕ))
      (is_resize : Bool) (d : Desktop)
      → let ws = tiled_windows in_view d.pinnacle in
        let updates = entries_of (take_next_for_output output d.pending_window_updates).0 in
        let zone = (d.pinnacle.output_states output).non_exclusive_zone in
        (e : Desktop) × (m : Mapping) × (place_tiles around output output_geo in_view snapshots gs
            is_resize d
          ≡ some e)
        × (e.pending_transactions ≡ add_for_output output m d.pending_transactions)
        × Maps (add_point output_geo.loc zone.loc) ws gs updates m
        × ((v : ℕ)
            → spilled_at e.pinnacle v ≡ (
                not (elem v (firsts (length gs) ws))
                && (elem v (skip (length gs) ws) || spilled_at d.pinnacle v)))
  unfolding place_tiles
  place_tiles_lem output output_geo in_view snapshots gs is_resize d =
      let zone = (d.pinnacle.output_states output).non_exclusive_zone in
      let ws = tiled_windows in_view d.pinnacle in
      let left = skip (length gs) ws in
      let (spilled, e, all, windows, x11, modes, part, kept, queued) =
        spill_all_lem around left output_geo zone d in
      let same : tiled_windows in_view e.pinnacle ≡ ws =
        tiled_windows_kept in_view left d.pinnacle e.pinnacle x11 part
          (λ v i. retained_holds (takes_part d.pinnacle) v _ (elem-skip v (length gs) ws i)) in
      let (m, transactions, maps, after) =
        give_places_lem output output_geo zone in_view snapshots gs is_resize spilled e ws same
          windows in
      (
        give_places output output_geo zone in_view snapshots gs is_resize spilled e,
        m,
        rw all refl,
        transactions ∙ ap (add_for_output output m) queued,
        subst
            (λ (us : List (ℕ × List (List (ℕ × Rectangle)))).
              Maps (add_point output_geo.loc zone.loc) ws gs
                (entries_of (take_next_for_output output us).0) m)
            kept maps,
        λ v. after v ∙ ap (λ (b : Bool). not (elem v (firsts (length gs) ws)) && b) (modes v),
      )
