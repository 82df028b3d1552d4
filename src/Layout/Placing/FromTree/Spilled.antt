-- ===== src/Layout/Placing/FromTree/Spilled.antt =====
-- src/layout.rs: the windows that are left without a tile.
use pinnacle.Common.{
  ℕ, Bool, true, false, not, ◌||◌, ◌≡◌, refl, List, [], ◌∷◌, Option, some, map, retain, elem, ◌==◌,
  ==_refl, ap, sym, ◌∙◌, Bool-cases, inl, inr, arith,
}
use pinnacle.Geometry.{Rectangle, add_point}
use pinnacle.Deps.{IndexSet, Smithay}
use pinnacle.State.{Pinnacle, modify_window}
use pinnacle.Window.LayoutMode.{
  LayoutMode, LayoutModeKind, current, is_tiled, is_spilled, set_spilled,
}
use pinnacle.Window.LayoutMode.Laws.{set_base_lem}
use pinnacle.Window.Queries.{is_x11_override_redirect}
use pinnacle.Layout.Placing.{
  Desktop, Surroundings, geometry_of_kind, floating_place, floating_size_of,
  compute_window_geometry,
}
use pinnacle.Layout.Placing.Updates.{on_pinnacle}
use pinnacle.Layout.Placing.FromTree.{tiled_windows, with_geometry, spill_all}

current-set_spilled : (m : LayoutMode) → current (set_spilled m true) ≡ LayoutModeKind.spilled
unfolding current set_spilled is_spilled
current-set_spilled m = ground arith

-- The parts of the state that the layout looks at.
abbrev pub spilled_at : Pinnacle → ℕ → Bool
spilled_at p w = is_spilled (p.window_states w).layout_mode

abbrev pub takes_part : Pinnacle → ℕ → Bool
takes_part p w = is_tiled (p.window_states w).layout_mode || spilled_at p w

or_true : (b : Bool) → (b || true) ≡ true
or_true true = refl
or_true false = refl

or_swap : (a b b' c : Bool) → b ≡ b' → (a || (b' || c)) ≡ ((b || a) || c)
or_swap a true b' c e = rw (sym e) (or_true a)
or_swap a false b' c e = rw (sym e) refl

==_sym : (a b : ℕ) → (a == b) ≡ (b == a)
==_sym a b = ground arith

module _ ⦃smithay : Smithay⦄ (around : Surroundings) where
  abbrev Spilled : ℕ → Desktop → Option ((ℕ × Rectangle) × Desktop) → Type 0
  Spilled w d next =
      (geo : Rectangle) × (e : Desktop) × (next ≡ some ((w, geo), e))
      × ((v : ℕ) → is_x11_override_redirect v e.pinnacle ≡ is_x11_override_redirect v d.pinnacle)
      × ((v : ℕ) → spilled_at e.pinnacle v ≡ ((v == w) || spilled_at d.pinnacle v))
      × ((v : ℕ) → takes_part e.pinnacle v ≡ ((v == w) || takes_part d.pinnacle v))
      × (e.pending_window_updates ≡ d.pending_window_updates)
      × (e.pending_transactions ≡ d.pending_transactions)

  spill_one :
      (w : ℕ) (output_geo zone : Rectangle) (d : Desktop)
      → Spilled w d (
          with_geometry w (
            compute_window_geometry around w output_geo zone (
              on_pinnacle
                (modify_window w (λ s. record s { layout_mode = set_spilled s.layout_mode true }))
                d)))
  unfolding compute_window_geometry is_x11_override_redirect
  spill_one w output_geo zone d =
      let d' =
        on_pinnacle
          (modify_window w (λ s. record s { layout_mode = set_spilled s.layout_mode true })) d in
      let geo : Rectangle = record zone { loc = add_point zone.loc output_geo.loc } in
      let kind : current (d'.pinnacle.window_states w).layout_mode ≡ LayoutModeKind.spilled =
        rw (==_refl w) (current-set_spilled (d.pinnacle.window_states w).layout_mode) in
      let placed = geometry_of_kind around LayoutModeKind.spilled w output_geo geo d' in
      (
        record {
          loc = floating_place around w geo d';
          size = floating_size_of around w (d'.pinnacle.window_states w);
        },
        placed.1,
        ap (λ (k : LayoutModeKind). with_geometry w (geometry_of_kind around k w output_geo geo d'))
            kind,
        λ v. elim (Bool-cases (v == w)) [
          | inl e ↦
              let same : v ≡ w = ground (arith, e) in
              rw (e, ==_refl w) (ap (λ (u : ℕ). is_x11_override_redirect u d.pinnacle) (sym same))
          | inr e ↦ rw e refl
        ],
        λ v. elim (Bool-cases (v == w)) [
          | inl e ↦ rw (e, ==_refl w) (set_base_lem (d.pinnacle.window_states w).layout_mode true).1
          | inr e ↦ rw e refl
        ],
        λ v. elim (Bool-cases (v == w)) [
          | inl e ↦
              rw (e, ==_refl w)
                (rw ((set_base_lem (d.pinnacle.window_states w).layout_mode true).1) (or_true _))
          | inr e ↦ rw e refl
        ],
        refl,
        refl,
      )

  abbrev pub AllSpilled : List ℕ → Desktop → Option (List (ℕ × Rectangle) × Desktop) → Type 0
  AllSpilled ws d next =
      (spilled : List (ℕ × Rectangle)) × (e : Desktop) × (next ≡ some (spilled, e))
      × (map (λ (t : ℕ × Rectangle). t.0) spilled ≡ ws)
      × ((v : ℕ) → is_x11_override_redirect v e.pinnacle ≡ is_x11_override_redirect v d.pinnacle)
      × ((v : ℕ) → spilled_at e.pinnacle v ≡ (elem v ws || spilled_at d.pinnacle v))
      × ((v : ℕ) → takes_part e.pinnacle v ≡ (elem v ws || takes_part d.pinnacle v))
      × (e.pending_window_updates ≡ d.pending_window_updates)
      × (e.pending_transactions ≡ d.pending_transactions)

  -- Spilling never panics.
  pub spill_all_lem :
      (ws : List ℕ) (output_geo zone : Rectangle) (d : Desktop)
      → AllSpilled ws d (spill_all around ws output_geo zone d)
  unfolding spill_all
  spill_all_lem [] output_geo zone d =
      ([], d, refl, refl, λ v. refl, λ v. refl, λ v. refl, refl, refl)
  spill_all_lem (w ∷ ws) output_geo zone d =
      let (geo, e, one, x11, spilled, part, kept, queued) = spill_one w output_geo zone d in
      let (rest, f, all, names, x11', spilled', part', kept', queued') =
        spill_all_lem ws output_geo zone e in
      (
        (w, geo) ∷ rest,
        f,
        rw (one, all) refl,
        ap (◌∷◌ w) names,
        λ v. x11' v ∙ x11 v,
        λ v. spilled' v ∙ rw (spilled v) (or_swap (elem v ws) (w == v) (v == w) _ (==_sym w v)),
        λ v. part' v ∙ rw (part v) (or_swap (elem v ws) (w == v) (v == w) _ (==_sym w v)),
        kept' ∙ kept,
        queued' ∙ queued,
      )

pub retain_same :
    (p q : ℕ → Bool) (xs : List ℕ)
    → ((x : ℕ) → elem x xs ≡ true → p x ≡ q x)
    → retain p xs ≡ retain q xs
retain_same p q [] h = refl
retain_same p q (x ∷ xs) h =
    let here = h x (ground (arith, ==_refl x)) in
    let rest = retain_same p q xs (λ y i. h y (ground (arith, i))) in ground (arith, here, rest)

module _ ⦃ix : IndexSet⦄ ⦃smithay : Smithay⦄ where
  -- The windows that take part in the layout are still the same.
  pub tiled_windows_kept :
      (in_view ws : List ℕ) (p q : Pinnacle)
      → ((v : ℕ) → is_x11_override_redirect v q ≡ is_x11_override_redirect v p)
      → ((v : ℕ) → takes_part q v ≡ (elem v ws || takes_part p v))
      → ((v : ℕ) → elem v ws ≡ true → takes_part p v ≡ true)
      → tiled_windows in_view q ≡ tiled_windows in_view p
  tiled_windows_kept in_view ws p q x11 part in_ws =
      retain_same (takes_part q) (takes_part p) _ (λ v i. elim (Bool-cases (elem v ws)) [
        | inl e ↦ part v ∙ rw e (sym (in_ws v e))
        | inr e ↦ part v ∙ rw e refl
      ])
      ∙ ap (retain (takes_part p)) (retain_same _ _ in_view (λ v i. ap not (x11 v)))
