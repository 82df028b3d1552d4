-- ===== src/Layout/Placing/FromTree/Whole.antt =====
-- src/layout.rs: `update_windows_from_tree` as a whole.
use pinnacle.Common.{
  ℕ, Bool, not, ◌||◌, ◌&&◌, ◌≡◌, refl, List, [], ◌∷◌, Option, none, some, map, elem, length, ap,
  ap₂, subst, ◌∙◌, arith, retain, lookup, Bool-cases, inl, inr,
}
use pinnacle.Geometry.{Point, Rectangle, add_point}
use pinnacle.Deps.{IndexSet, Smithay}
use pinnacle.State.{Pinnacle, emit, schedule_render}
use pinnacle.Window.LayoutMode.{LayoutMode, is_tiled, is_spilled}
use pinnacle.Window.State.{set_floating_loc}
use pinnacle.Window.Queries.{is_x11_override_redirect}
use pinnacle.Layout.Pending.{add_for_output, take_next_for_output}
use pinnacle.Layout.Placing.{Mapping, Desktop, Surroundings}
use pinnacle.Layout.Placing.Updates.{on_pinnacle}
use pinnacle.Layout.Placing.FromTree.{
  schedule_all, unmapped_at, unmap_window, keep_floating_loc, push_some, unmap_all, windows_on,
  has_focused_tag, skip, entries_of, tiled_windows, update_windows_from_tree,
}
use pinnacle.Layout.Placing.FromTree.Spilled.{spilled_at, takes_part, retain_same}
use pinnacle.Layout.Placing.FromTree.Shared.{firsts, Maps, place_tiles_lem}

-- What unmapping leaves alone.
record Kept (p q : Pinnacle) : Type 0 where
  modes : (v : ℕ) → (q.window_states v).layout_mode ≡ (p.window_states v).layout_mode
  surfaces : (v : ℕ) → (q.window_states v).surface ≡ (p.window_states v).surface
  geometries : (o : ℕ) → q.output_geometry o ≡ p.output_geometry o
  zones : (o : ℕ) → (q.output_states o).non_exclusive_zone ≡ (p.output_states o).non_exclusive_zone

Kept-refl : (p : Pinnacle) → Kept p p
Kept-refl p = record {
  modes = λ v. refl;
  surfaces = λ v. refl;
  geometries = λ o. refl;
  zones = λ o. refl;
}

Kept-trans : {p q r : Pinnacle} → Kept p q → Kept q r → Kept p r
Kept-trans k l = record {
  modes = λ v. l.modes v ∙ k.modes v;
  surfaces = λ v. l.surfaces v ∙ k.surfaces v;
  geometries = λ o. l.geometries o ∙ k.geometries o;
  zones = λ o. l.zones o ∙ k.zones o;
}

schedule_all-Kept : (os : List ℕ) (p : Pinnacle) → Kept p (schedule_all os p)
schedule_all-Kept [] p = Kept-refl p
schedule_all-Kept (o ∷ os) p =
    let rest = schedule_all-Kept os (emit (schedule_render o) p) in
    record {
      modes = rest.modes;
      surfaces = rest.surfaces;
      geometries = rest.geometries;
      zones = rest.zones;
    }

module _ (around : Surroundings) where
  keep_floating_loc-Kept :
      (w : ℕ) (loc : Option Point) (p : Pinnacle) → Kept p (keep_floating_loc around w loc p)
  unfolding set_floating_loc
  keep_floating_loc-Kept w none p = Kept-refl p
  keep_floating_loc-Kept w (some loc) p = record {
    modes = λ v. ground arith;
    surfaces = λ v. ground arith;
    geometries = λ o. ground arith;
    zones = λ o. ground arith;
  }

  -- A desktop after some unmapping.
  abbrev Unmapped : Desktop → Desktop → Type 0
  Unmapped d e =
      Kept d.pinnacle e.pinnacle
      × (e.pending_window_updates ≡ d.pending_window_updates)
      × (e.pending_transactions ≡ d.pending_transactions)

  unmapped_at-Unmapped :
      (w : ℕ) (loc : Option Point) (d : Desktop) → Unmapped d (unmapped_at around w loc d).1
  unmapped_at-Unmapped w none d = (
    record { modes = λ v. refl; surfaces = λ v. refl; geometries = λ o. refl; zones = λ o. refl },
    refl,
    refl,
  )
  unmapped_at-Unmapped w (some loc) d = elim (Bool-cases (around.can_snapshot w)) [
    | inl e ↦ rw e (
      record { modes = λ v. refl; surfaces = λ v. refl; geometries = λ o. refl; zones = λ o. refl },
      refl,
      refl,
    )
    | inr e ↦ rw e (
      record { modes = λ v. refl; surfaces = λ v. refl; geometries = λ o. refl; zones = λ o. refl },
      refl,
      refl,
    )
  ]

  unmap_window-Unmapped : (w : ℕ) (d : Desktop) → Unmapped d (unmap_window around w d).1
  unfolding unmap_window
  unmap_window-Unmapped w d =
      let (k, u, t) = unmapped_at-Unmapped w (lookup w d.elements) d in
      (
        Kept-trans k (
            schedule_all-Kept (around.outputs_for_element w)
              (unmapped_at around w (lookup w d.elements) d).1.pinnacle),
        u,
        t,
      )

  unmap_all-Unmapped : (ws us : List ℕ) (d : Desktop) → Unmapped d (unmap_all around ws (us, d)).1
  unfolding unmap_all
  unmap_all-Unmapped [] us d = (
    record { modes = λ v. refl; surfaces = λ v. refl; geometries = λ o. refl; zones = λ o. refl },
    refl,
    refl,
  )
  unmap_all-Unmapped (w ∷ ws) us d =
      let e = on_pinnacle (keep_floating_loc around w (lookup w d.elements)) d in
      let first = keep_floating_loc-Kept w (lookup w d.elements) d.pinnacle in
      let (k, u, t) = unmap_window-Unmapped w e in
      let f = unmap_window around w e in
      let (k', u', t') = unmap_all-Unmapped ws (push_some around f.0 us) f.1 in
      (Kept-trans (Kept-trans first k) k', u' ∙ u, t' ∙ t)

module _ ⦃ix : IndexSet⦄ where
  tiled_windows_same :
      (in_view : List ℕ) (p q : Pinnacle)
      → Kept p q
      → tiled_windows in_view q ≡ tiled_windows in_view p
  unfolding is_x11_override_redirect
  tiled_windows_same in_view p q k =
      retain_same (takes_part q) (takes_part p) _
        (λ v i. ap (λ (m : LayoutMode). is_tiled m || is_spilled m) (k.modes v))
      ∙ ap (retain (takes_part p)) (retain_same _ _ in_view (λ v i. rw (k.surfaces v) refl))

module _ ⦃ix : IndexSet⦄ ⦃smithay : Smithay⦄ where
  moved_Maps :
      (output : ℕ) (output_geo : Rectangle) (gs : List (Rectangle × ℕ)) (m : Mapping)
      {ws vs : List ℕ} {us ts : List (ℕ × List (List (ℕ × Rectangle)))} {zone area : Rectangle}
      → vs ≡ ws
      → ts ≡ us
      → area ≡ zone
      → Maps
          (add_point output_geo.loc area.loc)
          vs
          gs
          (entries_of (take_next_for_output output ts).0)
          m
      → Maps
          (add_point output_geo.loc zone.loc)
          ws
          gs
          (entries_of (take_next_for_output output us).0)
          m
  moved_Maps output output_geo gs m {ws} {vs} {us} {ts} {zone} {area} e f g maps =
      subst
        (λ (z : Rectangle).
          Maps (add_point output_geo.loc z.loc) ws gs
            (entries_of (take_next_for_output output us).0) m)
        g
        (subst
          (λ (xs : List (ℕ × List (List (ℕ × Rectangle)))).
            Maps (add_point output_geo.loc area.loc) ws gs
              (entries_of (take_next_for_output output xs).0) m)
          f
          (subst
            (λ (xs : List ℕ).
              Maps (add_point output_geo.loc area.loc) xs gs
                (entries_of (take_next_for_output output ts).0) m)
            e maps))

module _ ⦃ix : IndexSet⦄ ⦃smithay : Smithay⦄ (around : Surroundings) where
  -- A layout's tiles given to an output that is mapped: the windows with a tag in focus there that take
  -- part in the layout get the tiles in their order, and those that are left over are spilled, which
  -- never panics. One transaction more waits for the output. It maps these windows and those that
  -- waited for the layout, and no others, each to where its last entry has it: the entries are the
  -- tiles in their order, moved to the part of the output that is left free, then the places of the
  -- spilled windows, then the updates that waited. A window that got a tile is spilled no longer, one
  -- that was left over is, and the others stay as they are.
  pub update_windows_from_tree_lem :
      (output : ℕ) (output_geo : Rectangle) (gs : List (Rectangle × ℕ)) (is_resize : Bool)
      (d : Desktop)
      → d.pinnacle.output_geometry output ≡ some output_geo
      → let in_view = retain (has_focused_tag output d.pinnacle) (windows_on output d.pinnacle) in
        let ws = tiled_windows in_view d.pinnacle in
        let updates = entries_of (take_next_for_output output d.pending_window_updates).0 in
        let zone = (d.pinnacle.output_states output).non_exclusive_zone in
        (e : Desktop) × (m : Mapping) × (update_windows_from_tree around output
            (some gs)
            is_resize
            d
          ≡ some e)
        × (e.pending_transactions ≡ add_for_output output m d.pending_transactions)
        × Maps (add_point output_geo.loc zone.loc) ws gs updates m
        × ((v : ℕ)
            → spilled_at e.pinnacle v ≡ (
                not (elem v (firsts (length gs) ws))
                && (elem v (skip (length gs) ws) || spilled_at d.pinnacle v)))
  unfolding update_windows_from_tree
  update_windows_from_tree_lem output output_geo gs is_resize d h =
      let p = d.pinnacle in
      let in_view = retain (has_focused_tag output p) (windows_on output p) in
      let to_unmap = retain (λ w. not (has_focused_tag output p w)) (windows_on output p) in
      let order =
        around.hash_order
          (retain (λ w. elem w to_unmap) (map (λ (t : ℕ × Point). t.0) d.elements)) in
      let (snapshots, u) = unmap_all around order ([], d) in
      let (kept, updates, transactions) = unmap_all-Unmapped around order [] d in
      let same = tiled_windows_same in_view p u.pinnacle kept in
      let (e, m, placed, queued, maps, after) =
        place_tiles_lem around output output_geo in_view snapshots gs is_resize u in
      (
        e,
        m,
        rw (kept.geometries output ∙ h, update_windows_from_tree) placed,
        queued ∙ ap (add_for_output output m) transactions,
        moved_Maps output output_geo gs m same updates (kept.zones output) maps,
        λ v.
            after v
            ∙ ap₂
                (λ (ws : List ℕ) (b : Bool).
                  not (elem v (firsts (length gs) ws)) && (elem v (skip (length gs) ws) || b))
                same (ap is_spilled (kept.modes v)),
      )
