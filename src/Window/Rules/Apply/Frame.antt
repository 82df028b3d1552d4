-- ===== src/Window/Rules/Apply/Frame.antt =====
-- src/window/rules.rs: what applying rules to a window leaves alone.
use pinnacle.Common.{
  inl, is_some, ◌&&◌, inr, ◌⊎◌, ℕ, ◌≡◌, refl, ◌∙◌, ap, Bool, true, false, not, Option, none, some,
  arith, ◌==◌, if◌then◌else◌,
}
use pinnacle.Deps.{IndexSet, Smithay}
use pinnacle.Geometry.{Size, Point, Rectangle}
use pinnacle.State.{
  send_configure, x11_set_mapped, modify_window, emit, Pinnacle, Unmapped, WindowRules,
  ClientRequests, post_initial_configure,
}
use pinnacle.Window.State.{Toplevel, X11Surface, UnderlyingSurface, wayland, x11}
use pinnacle.Window.LayoutMode.{LayoutModeKind, current}
use pinnacle.Window.Configure.{
  set_states, configure_states, set_pending_geo, set_nontiled_geo, configure_window_if_nontiled,
}
use pinnacle.Window.Queries.{window_output}
use pinnacle.Window.Rules.Apply.{
  with_state, ne_some_false, ruled_state, tell_decoration, send_initial, apply_rules,
}

-- Whether a toplevel's initial configure was sent.
abbrev pub is_sent : UnderlyingSurface → Bool
is_sent (wayland t) = t.initial_configure_sent
is_sent (x11 s) = false

-- The same windows are unmapped, with the same rule requests, and every window but `w` is as it was.
pub record KeepsOthers (w : ℕ) (p q : Pinnacle) : Type 0 where
  pub unmapped : q.unmapped_windows ≡ p.unmapped_windows
  pub requests : q.window_rule_state ≡ p.window_rule_state
  pub others : (v : ℕ) → (v == w) ≡ false → q.window_states v ≡ p.window_states v

-- And `w` itself has not been sent its initial configure by this.
pub record Keeps (w : ℕ) (p q : Pinnacle) : Type 0 where
  pub rest : KeepsOthers w p q
  pub sent : is_sent (q.window_states w).surface ≡ is_sent (p.window_states w).surface

Surface-cases :
    (s : UnderlyingSurface) → ((t : Toplevel) × (s ≡ wayland t)) ⊎ ((x : X11Surface) × (s ≡ x11 x))
Surface-cases (wayland t) = inl (t, refl)
Surface-cases (x11 x) = inr (x, refl)

Keeps-refl : (w : ℕ) (p : Pinnacle) → Keeps w p p
Keeps-refl w p = record {
  rest = record { unmapped = refl; requests = refl; others = λ v h. refl };
  sent = refl;
}

KeepsOthers-trans :
    {w : ℕ} {p q r : Pinnacle} → KeepsOthers w p q → KeepsOthers w q r → KeepsOthers w p r
KeepsOthers-trans a b = record {
  unmapped = b.unmapped ∙ a.unmapped;
  requests = b.requests ∙ a.requests;
  others = λ v h. b.others v h ∙ a.others v h;
}

Keeps-trans : {w : ℕ} {p q r : Pinnacle} → Keeps w p q → Keeps w q r → Keeps w p r
Keeps-trans a b = record { rest = KeepsOthers-trans a.rest b.rest; sent = b.sent ∙ a.sent }

set_states-Keeps : (m f t : Bool) (w : ℕ) (p : Pinnacle) → Keeps w p (set_states m f t w p)
unfolding set_states
set_states-Keeps m f t w p = record {
  rest = record { unmapped = ground arith; requests = ground arith; others = λ v h. ground arith };
  sent = ground arith;
}

configure_states-Keeps : (w : ℕ) (p : Pinnacle) → Keeps w p (configure_states w p)
unfolding configure_states
configure_states-Keeps w p =
    elim (current (p.window_states w).layout_mode)
      as (λ k. Keeps w p (elim k [
        | LayoutModeKind.tiled ↦ set_states false false true w p
        | LayoutModeKind.floating ↦ set_states false false false w p
        | LayoutModeKind.spilled ↦ set_states false false false w p
        | LayoutModeKind.maximized ↦ set_states true false true w p
        | LayoutModeKind.fullscreen ↦ set_states false true true w p
      ])) [
        | LayoutModeKind.tiled ↦ set_states-Keeps false false true w p
        | LayoutModeKind.floating ↦ set_states-Keeps false false false w p
        | LayoutModeKind.spilled ↦ set_states-Keeps false false false w p
        | LayoutModeKind.maximized ↦ set_states-Keeps true false true w p
        | LayoutModeKind.fullscreen ↦ set_states-Keeps false true true w p
      ]

tell_decoration-Keeps :
    (w : ℕ) (r : WindowRules) (c : ClientRequests) (p : Pinnacle)
    → Keeps w p (tell_decoration w r c p)
unfolding tell_decoration
tell_decoration-Keeps w r c p = record {
  rest = record { unmapped = ground arith; requests = ground arith; others = λ v h. ground arith };
  sent = ground arith;
}

ruled_state-Keeps :
    (w : ℕ) (r : WindowRules) (c : ClientRequests) (p : Pinnacle)
    → Keeps w p (modify_window w (ruled_state r c) p)
unfolding ruled_state
ruled_state-Keeps w r c p = record {
  rest = record { unmapped = refl; requests = refl; others = λ v h. ground arith };
  sent = ground arith;
}

-- The initial configure of a window that was not sent it is sent.
send_initial-total :
    (w : ℕ) (p : Pinnacle)
    → is_sent (p.window_states w).surface ≡ false
    → (q : Pinnacle) × (send_initial w p ≡ some q) × KeepsOthers w p q
unfolding send_initial
send_initial-total w p h = elim (Surface-cases (p.window_states w).surface) [
  | inl (t, e) ↦ (
    emit (send_configure w) (
        modify_window w
          (λ s. record s { surface = wayland (record t { initial_configure_sent = true }) }) p),
    ground arith,
    record { unmapped = refl; requests = refl; others = λ v h. ground arith },
  )
  | inr (s, e) ↦ (
    emit (x11_set_mapped w true) p,
    ground arith,
    record { unmapped = refl; requests = refl; others = λ v h. refl },
  )
]

Keeps-if :
    (b : Bool) (w : ℕ) (p q r : Pinnacle)
    → Keeps w p q
    → Keeps w p r
    → Keeps w p (if b then q else r)
Keeps-if true w p q r a b = a
Keeps-if false w p q r a b = b

Keeps-option :
    {A : Type 0} (o : Option A) (w : ℕ) (p : Pinnacle) (f : A → Pinnacle)
    → ((a : A) → Keeps w p (f a))
    → Keeps w p (elim o [ none ↦ p | some a ↦ f a ])
Keeps-option none w p f h = Keeps-refl w p
Keeps-option (some a) w p f h = h a

module _ ⦃smithay : Smithay⦄ where
  set_pending_geo-Keeps :
      (w : ℕ) (s : Size) (l : Option Point) (p : Pinnacle) → Keeps w p (set_pending_geo w s l p)
  unfolding set_pending_geo
  set_pending_geo-Keeps w s l p = record {
    rest = record {
      unmapped = ground arith;
      requests = ground arith;
      others = λ v h. ground arith;
    };
    sent = ground arith;
  }

  set_nontiled_geo-Keeps :
      (k : LayoutModeKind) (w : ℕ) (g z : Rectangle) (p : Pinnacle)
      → Keeps w p (set_nontiled_geo k w g z p)
  unfolding set_nontiled_geo
  set_nontiled_geo-Keeps LayoutModeKind.tiled w g z p = Keeps-refl w p
  set_nontiled_geo-Keeps LayoutModeKind.maximized w g z p = set_pending_geo-Keeps w _ _ p
  set_nontiled_geo-Keeps LayoutModeKind.fullscreen w g z p = set_pending_geo-Keeps w _ _ p
  set_nontiled_geo-Keeps LayoutModeKind.floating w g z p = set_pending_geo-Keeps w _ _ p
  set_nontiled_geo-Keeps LayoutModeKind.spilled w g z p = set_pending_geo-Keeps w _ _ p

module _ ⦃ix : IndexSet⦄ ⦃smithay : Smithay⦄ where
  configure_window_if_nontiled-Keeps :
      (w : ℕ) (p : Pinnacle) → Keeps w p (configure_window_if_nontiled w p)
  unfolding configure_window_if_nontiled
  configure_window_if_nontiled-Keeps w p =
      let mode = (p.window_states w).layout_mode in
      Keeps-if _ w p p _ (Keeps-refl w p) (
        Keeps-option (window_output w p) w p _ (λ o.
          Keeps-option (p.output_geometry o) w p _ (λ geo. Keeps-if _ w p p _ (Keeps-refl w p) (
            Keeps-trans (configure_states-Keeps w p) (
              set_nontiled_geo-Keeps (current mode) w geo (p.output_states o).non_exclusive_zone
                (configure_states w p))))))

  -- What `send_initial` is applied to.
  abbrev told : ℕ → WindowRules → ClientRequests → Pinnacle → Pinnacle
  told w r c p =
      tell_decoration w r c (configure_window_if_nontiled w (modify_window w (ruled_state r c) p))

  told-Keeps :
      (w : ℕ) (r : WindowRules) (c : ClientRequests) (p : Pinnacle) → Keeps w p (told w r c p)
  told-Keeps w r c p = Keeps-trans (ruled_state-Keeps w r c p) (
      Keeps-trans (configure_window_if_nontiled-Keeps w (modify_window w (ruled_state r c) p))
        (tell_decoration-Keeps w r c _))

  -- Applying rules to a window that was not sent its initial configure gives a result.
  pub apply_rules-total :
      (u : Unmapped) (r : WindowRules) (c : ClientRequests) (p : Pinnacle)
      → is_sent (p.window_states u.window).surface ≡ false
      → (q : Pinnacle) × (float : Bool) × (focus : Bool) × (apply_rules u r c p
          ≡ some (q, record u { state = post_initial_configure float focus }))
        × KeepsOthers u.window p q
  unfolding apply_rules
  apply_rules-total u r c p h =
      let k = told-Keeps u.window r c p in
      let s = send_initial-total u.window (told u.window r c p) (k.sent ∙ h) in
      let float = not (is_some r.layout_mode) && not (is_some c.layout_mode) in
      let focus = ne_some_false r.focused in
      (
        s.0,
        float,
        focus,
        ap (with_state u (post_initial_configure float focus)) s.1,
        KeepsOthers-trans k.rest s.2,
      )
