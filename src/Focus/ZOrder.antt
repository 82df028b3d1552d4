-- ===== src/Focus/ZOrder.antt =====
-- src/focus.rs: the z-index stack, bottom to top. Each raise of an element of the space is logged.
pub mod Laws
use pinnacle.Common.{
  ℕ, Bool, true, false, not, List, [], ◌∷◌, ◌++◌, Option, retain, if◌then◌else◌, ◌==◌,
}
use pinnacle.State.{Pinnacle, ZIndexElement, window, unmapping, raise_element, emit}
use pinnacle.Layout.Request.{update_xwayland_stacking_order}

-- `matches!(win, ZIndexElement::Window(win) if win == window)`.
abbrev pub is_window : ℕ → ZIndexElement → Bool
is_window w (window v) = v == w
is_window w (unmapping u) = false

unfoldable pub raise_window : ℕ → Pinnacle → Pinnacle
unfolding update_xwayland_stacking_order
raise_window w p =
    let q = emit (raise_element w) p in
    update_xwayland_stacking_order (record q {
      z_index_stack = retain (λ z. not (is_window w z)) q.z_index_stack ++ window w ∷ [];
    })

-- The loop of `lower_window` over the stack.
unfoldable pub raise_all : List ZIndexElement → Pinnacle → Pinnacle
raise_all [] p = p
raise_all (window w ∷ zs) p = raise_all zs (emit (raise_element w) p)
raise_all (unmapping u ∷ zs) p = raise_all zs p

unfoldable pub lower_window : ℕ → Pinnacle → Pinnacle
unfolding raise_all update_xwayland_stacking_order
lower_window w p =
    let zs = window w ∷ retain (λ z. not (is_window w z)) p.z_index_stack in
    update_xwayland_stacking_order (raise_all zs (record p { z_index_stack = zs }))

-- `weak.upgrade().is_some()` for a snapshot of an unmapping window.
abbrev pub stays : (ℕ → Bool) → ZIndexElement → Bool
stays held (window w) = true
stays held (unmapping u) = held u

unfoldable pub fixup_z_layering : (ℕ → Bool) → Pinnacle → Pinnacle
unfolding raise_all
fixup_z_layering held p =
    let q = raise_all p.z_index_stack p in
    record q { z_index_stack = retain (stays held) q.z_index_stack }
