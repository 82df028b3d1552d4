-- ===== src/Layout/Placing/FromTree/Configured.antt =====
-- src/layout.rs: the windows that are configured for a new layout.
use pinnacle.Common.{
  ℕ, Bool, true, false, not, ◌&&◌, ◌≡◌, refl, List, [], ◌∷◌, Option, none, some, or_else, is_some,
  ◌||◌, elem, ◌==◌, ap, ◌∙◌, Bool-cases, inl, inr, arith, if◌then◌else◌,
}
use pinnacle.Geometry.{Point, Size, Rectangle}
use pinnacle.Deps.{Smithay}
use pinnacle.State.{Pinnacle, modify_window, update}
use pinnacle.Window.LayoutMode.{LayoutMode, is_spilled, set_spilled}
use pinnacle.Window.LayoutMode.Laws.{set_base_lem}
use pinnacle.Window.Configure.{configure, configure_states, set_pending_geo, set_states}
use pinnacle.Layout.Placing.Updates.{configure_window_and_add_map}
use pinnacle.Layout.Placing.FromTree.{configure_all}

pub and_false : (b : Bool) → (b && false) ≡ false
and_false true = refl
and_false false = refl

abbrev pub mode_of : Pinnacle → ℕ → LayoutMode
mode_of p v = (p.window_states v).layout_mode

set_states_keeps :
    (a b c : Bool) (w : ℕ) (p : Pinnacle) (v : ℕ) → mode_of (set_states a b c w p) v ≡ mode_of p v
unfolding set_states
set_states_keeps a b c w p v = ground arith

pub configure_states_keeps :
    (w : ℕ) (p : Pinnacle) (v : ℕ) → mode_of (configure_states w p) v ≡ mode_of p v
unfolding configure_states set_states
configure_states_keeps w p v = ground arith

pub configure_keeps : (w : ℕ) (p : Pinnacle) (v : ℕ) → mode_of (configure w p) v ≡ mode_of p v
unfolding configure
configure_keeps w p v = ground arith

-- The windows that the loop takes for tiled.
abbrev pub made_tiled : List (ℕ × Rectangle × Bool) → List ℕ
made_tiled [] = []
made_tiled ((w, geo, tiled) ∷ rest) =
    let others = made_tiled rest in if tiled then w ∷ others else others

abbrev pub names : List (ℕ × Rectangle × Bool) → List ℕ
names [] = []
names ((w, geo, tiled) ∷ rest) = w ∷ names rest

-- Where a window is mapped to: where the last entry for it says.
abbrev pub target_of : ℕ → List (ℕ × Rectangle × Bool) → Option Point
target_of v [] = none
target_of v ((w, geo, tiled) ∷ rest) =
    or_else (target_of v rest) (if v == w then some geo.loc else none)

is_some-later :
    (r : Option Point) (b c : Bool) (loc : Point)
    → b ≡ c
    → is_some (or_else r (if b then some loc else none)) ≡ (c || is_some r)
is_some-later none true c loc h = ground (arith, h)
is_some-later none false c loc h = ground (arith, h)
is_some-later (some at) b true loc h = refl
is_some-later (some at) b false loc h = refl

pub is_some-target_of :
    (v : ℕ) (entries : List (ℕ × Rectangle × Bool))
    → is_some (target_of v entries) ≡ elem v (names entries)
is_some-target_of v [] = refl
is_some-target_of v ((w, geo, tiled) ∷ rest) =
    is_some-later (target_of v rest) (v == w) (w == v) geo.loc (ground arith)
    ∙ ap (λ b. (w == v) || b) (is_some-target_of v rest)

pub or_else-none : (r : Option Point) → or_else r none ≡ r
or_else-none none = refl
or_else-none (some at) = refl

-- An entry replaces what was there before it, and later ones replace it.
inserted :
    (r : Option Point) (maps : ℕ → Option Point) (v w : ℕ) (loc : Point)
    → or_else r (update maps w (some loc) v)
      ≡ or_else (or_else r (if v == w then some loc else none)) (maps v)
inserted (some at) maps v w loc = refl
inserted none maps v w loc = elim (Bool-cases (v == w)) [ inl e ↦ rw e refl | inr e ↦ rw e refl ]

-- The change of a window's mode that the loop makes first.
abbrev unspilled_if : Bool → ℕ → Pinnacle → Pinnacle
unspilled_if tiled w p =
    if tiled
    then modify_window w (λ s. record s { layout_mode = set_spilled s.layout_mode false }) p
    else p

unspilled_if_lem :
    (tiled : Bool) (w : ℕ) (geo : Rectangle) (rest : List (ℕ × Rectangle × Bool)) (p : Pinnacle)
    (v : ℕ)
    → (not (elem v (made_tiled rest)) && is_spilled (mode_of (unspilled_if tiled w p) v))
      ≡ (not (elem v (made_tiled ((w, geo, tiled) ∷ rest))) && is_spilled (mode_of p v))
unspilled_if_lem false w geo rest p v = refl
unspilled_if_lem true w geo rest p v =
    let off = (set_base_lem (p.window_states w).layout_mode false).1 in
    elim (Bool-cases (v == w)) [
      | inl e ↦ ground (arith, e, off, and_false (not (elem v (made_tiled rest))))
      | inr e ↦ ground (arith, e)
    ]

module _ ⦃smithay : Smithay⦄ where
  pub set_pending_geo_keeps :
      (w : ℕ) (size : Size) (loc : Option Point) (p : Pinnacle) (v : ℕ)
      → mode_of (set_pending_geo w size loc p) v ≡ mode_of p v
  unfolding set_pending_geo
  set_pending_geo_keeps w size loc p v = ground arith

  pub configure_window_keeps :
      (w output : ℕ) (geo : Rectangle) (maps : ℕ → Option Point) (p : Pinnacle) (v : ℕ)
      → mode_of (configure_window_and_add_map w output geo (maps, p)).1 v ≡ mode_of p v
  unfolding configure_window_and_add_map
  configure_window_keeps w output geo maps p v =
      let told = configure_states w p in
      let sized = set_pending_geo w geo.size (some geo.loc) told in
      configure_keeps w sized v
      ∙ set_pending_geo_keeps w geo.size (some geo.loc) told v
      ∙ configure_states_keeps w p v

  -- Every window of the loop gets the place to map to that its last entry has; those with a tile are spilled no longer,
  -- and the others stay as they are.
  pub configure_all_lem :
      (output : ℕ) (entries : List (ℕ × Rectangle × Bool)) (maps : ℕ → Option Point) (p : Pinnacle)
      → ((v : ℕ)
          → (configure_all output entries (maps, p)).0 v ≡ or_else (target_of v entries) (maps v))
        × ((v : ℕ)
            → is_spilled (mode_of (configure_all output entries (maps, p)).1 v)
              ≡ (not (elem v (made_tiled entries)) && is_spilled (mode_of p v)))
  unfolding configure_all configure_window_and_add_map
  configure_all_lem output [] maps p = (λ v. refl, λ v. refl)
  configure_all_lem output ((w, geo, tiled) ∷ rest) maps p =
      let q = unspilled_if tiled w p in
      let next = configure_window_and_add_map w output geo (maps, q) in
      let (m, s) = configure_all_lem output rest next.0 next.1 in
      (
        λ v. m v ∙ inserted (target_of v rest) maps v w geo.loc,
        λ v.
            s v
            ∙ ap (λ (k : LayoutMode). not (elem v (made_tiled rest)) && is_spilled k)
                (configure_window_keeps w output geo maps q v)
            ∙ unspilled_if_lem tiled w geo rest p v,
      )
