-- ===== src/Focus/ZOrder/Laws.antt =====
-- src/focus.rs: raising and lowering a window.
use mathlib.Core.List.{append-nil, append_assoc}
use pinnacle.Common.{
  ℕ, ◌≡◌, refl, ◌∙◌, ap, sym, Bool, not, List, [], ◌∷◌, ◌++◌, retain, arith, without, map, ==_refl,
}
use pinnacle.State.{Pinnacle, ZIndexElement, window, unmapping, raise_element, emit}
use pinnacle.Layout.Request.{z_windows}
use pinnacle.Layout.Request.Frame.{stacking-OnlyLogs}
use pinnacle.Focus.ZOrder.{
  is_window, raise_window, raise_all, lower_window, stays, fixup_z_layering,
}

z_windows-without :
    (w : ℕ) (zs : List ZIndexElement)
    → z_windows (retain (λ z. not (is_window w z)) zs) ≡ without w (z_windows zs)
z_windows-without w [] = refl
z_windows-without w (window v ∷ zs) = ground (arith, z_windows-without w zs)
z_windows-without w (unmapping u ∷ zs) = z_windows-without w zs

z_windows-append :
    (xs ys : List ZIndexElement) → z_windows (xs ++ ys) ≡ z_windows xs ++ z_windows ys
z_windows-append [] ys = refl
z_windows-append (window v ∷ zs) ys = ap (◌∷◌ v) (z_windows-append zs ys)
z_windows-append (unmapping u ∷ zs) ys = z_windows-append zs ys

z_windows-stays :
    (held : ℕ → Bool) (zs : List ZIndexElement) → z_windows (retain (stays held) zs) ≡ z_windows zs
z_windows-stays held [] = refl
z_windows-stays held (window v ∷ zs) = ap (◌∷◌ v) (z_windows-stays held zs)
z_windows-stays held (unmapping u ∷ zs) = ground (arith, z_windows-stays held zs)

raise_all-logs :
    (zs : List ZIndexElement) (p : Pinnacle)
    → raise_all zs p ≡ record p { effects = p.effects ++ map raise_element (z_windows zs) }
unfolding raise_all
raise_all-logs [] p = λ i. record p { effects = sym (append-nil p.effects) i }
raise_all-logs (window w ∷ zs) p = raise_all-logs zs (emit (raise_element w) p) ∙ (λ i. record p {
  effects = append_assoc p.effects (raise_element w ∷ []) (map raise_element (z_windows zs)) i;
})
raise_all-logs (unmapping u ∷ zs) p = raise_all-logs zs p

raise_window-stack :
    (w : ℕ) (p : Pinnacle)
    → (raise_window w p).z_index_stack
      ≡ retain (λ z. not (is_window w z)) p.z_index_stack ++ window w ∷ []
unfolding raise_window
raise_window-stack w p = ap (λ (q : Pinnacle). q.z_index_stack) (stacking-OnlyLogs _)

lower_window-stack :
    (w : ℕ) (p : Pinnacle)
    → (lower_window w p).z_index_stack
      ≡ window w ∷ retain (λ z. not (is_window w z)) p.z_index_stack
unfolding lower_window
lower_window-stack w p =
    let zs = window w ∷ retain (λ z. not (is_window w z)) p.z_index_stack in
    ap (λ (q : Pinnacle). q.z_index_stack) (stacking-OnlyLogs _)
    ∙ ap (λ (q : Pinnacle). q.z_index_stack) (raise_all-logs zs (record p { z_index_stack = zs }))

lower-raise :
    (w : ℕ) (zs : List ZIndexElement)
    → retain (λ z. not (is_window w z)) (retain (λ z. not (is_window w z)) zs ++ window w ∷ [])
      ≡ retain (λ z. not (is_window w z)) zs
lower-raise w [] = ground (arith, ==_refl w)
lower-raise w (z ∷ zs) = ground (arith, lower-raise w zs)

-- Raising a window puts it on top of the other windows and lowering it puts it under them, and the
-- others keep their order; lowering what was raised gives the stack that lowering alone gives.
pub raise_lower_lem :
    (w : ℕ) (p : Pinnacle)
    → (z_windows (raise_window w p).z_index_stack ≡ without w (z_windows p.z_index_stack) ++ w ∷ [])
      × (z_windows (lower_window w p).z_index_stack ≡ w ∷ without w (z_windows p.z_index_stack))
      × ((lower_window w (raise_window w p)).z_index_stack ≡ (lower_window w p).z_index_stack)
raise_lower_lem w p =
    let zs = p.z_index_stack in
    let rest = retain (λ z. not (is_window w z)) zs in
    (
      ap z_windows (raise_window-stack w p)
          ∙ z_windows-append rest (window w ∷ [])
          ∙ ap (λ l. l ++ w ∷ []) (z_windows-without w zs),
      ap z_windows (lower_window-stack w p) ∙ ap (◌∷◌ w) (z_windows-without w zs),
      lower_window-stack w (raise_window w p)
          ∙ ap (λ l. window w ∷ retain (λ z. not (is_window w z)) l) (raise_window-stack w p)
          ∙ ap (◌∷◌ (window w)) (lower-raise w zs)
          ∙ sym (lower_window-stack w p),
    )

-- Layers are put right by raising every window of the stack from bottom to top, and nothing else; the
-- windows keep their order, and of the snapshots those stay that are still held.
pub fixup_z_layering_lem :
    (held : ℕ → Bool) (p : Pinnacle)
    → ((fixup_z_layering held p).effects
        ≡ p.effects ++ map raise_element (z_windows p.z_index_stack))
      × (z_windows (fixup_z_layering held p).z_index_stack ≡ z_windows p.z_index_stack)
      × ((fixup_z_layering held p).z_index_stack ≡ retain (stays held) p.z_index_stack)
unfolding fixup_z_layering
fixup_z_layering_lem held p = (
  ap (λ (q : Pinnacle). q.effects) (raise_all-logs p.z_index_stack p),
  ap (λ (q : Pinnacle). z_windows (retain (stays held) q.z_index_stack))
        (raise_all-logs p.z_index_stack p)
      ∙ z_windows-stays held p.z_index_stack,
  ap (λ (q : Pinnacle). retain (stays held) q.z_index_stack) (raise_all-logs p.z_index_stack p),
)
