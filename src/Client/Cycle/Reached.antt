-- ===== src/Client/Cycle/Reached.antt =====
-- api/rust/src/layout/generators.rs: going on through the layouts of a tag comes to each of them.
use pinnacle.Common.{
  ℕ, zero, suc, ◌+◌, ◌-◌, ◌<◌, ◌≤◌, ◌≡◌, inl, inr, refl, leb, length, get_elem?, arith, ap, ◌∙◌,
  Bool-cases, List,
}
use pinnacle.Client.Cycle.{Cycle, index_for, cycle_layout_forward, current_layout}
use pinnacle.Client.Cycle.Laws.{InRange, forward_own, forward_keeps}

zero_add : (b : ℕ) → 0 + b ≡ b
zero_add b = omega arith

suc_add : (a b : ℕ) → suc a + b ≡ suc (a + b)
suc_add a b = omega arith

module _ {T : Type 0} where
  -- So many steps on.
  unfoldable pub go_on : ℕ → Cycle T → ℕ → Cycle T
  go_on zero c tag = c
  go_on (suc k) c tag = go_on k (cycle_layout_forward c tag) tag

  -- The steps before the end, and the one that starts over.
  go_on_up :
      (k : ℕ) (c : Cycle T) (tag : ℕ)
      → index_for c tag + k < length c.layouts
      → (index_for (go_on k c tag) tag ≡ index_for c tag + k)
        × ((go_on k c tag).layouts ≡ c.layouts)
  unfolding go_on
  go_on_up zero c tag h = (omega arith, refl)
  go_on_up (suc k) c tag h =
      let own : index_for (cycle_layout_forward c tag) tag ≡ suc (index_for c tag) =
        forward_own c tag ∙ ground (arith, h) in
      let len = ap (λ (ls : List T). length ls) (forward_keeps c tag) in
      let (e, f) = go_on_up k (cycle_layout_forward c tag) tag (omega (arith, own, h, len)) in
      (omega (arith, e, own), f ∙ forward_keeps c tag)

  go_on_over :
      (k : ℕ) (c : Cycle T) (tag : ℕ)
      → index_for c tag + suc k ≡ length c.layouts
      → (index_for (go_on (suc k) c tag) tag ≡ 0) × ((go_on (suc k) c tag).layouts ≡ c.layouts)
  unfolding go_on
  go_on_over zero c tag h = (forward_own c tag ∙ ground (arith, h), forward_keeps c tag)
  go_on_over (suc k) c tag h =
      let own : index_for (cycle_layout_forward c tag) tag ≡ suc (index_for c tag) =
        forward_own c tag ∙ ground (arith, h) in
      let len = ap (λ (ls : List T). length ls) (forward_keeps c tag) in
      let (e, f) = go_on_over k (cycle_layout_forward c tag) tag (omega (arith, own, h, len)) in
      (e, f ∙ forward_keeps c tag)

  go_on-add : (a b : ℕ) (c : Cycle T) (tag : ℕ) → go_on (a + b) c tag ≡ go_on b (go_on a c tag) tag
  unfolding go_on
  go_on-add zero b c tag = ap (λ (n : ℕ). go_on n c tag) (zero_add b)
  go_on-add (suc a) b c tag = rw (suc_add a b) (go_on-add a b (cycle_layout_forward c tag) tag)

  -- Every layout of a tag is reached by going on, in at most as many steps as there are layouts; and
  -- it is then the tag's current layout.
  pub go_on_reaches :
      (c : Cycle T) (tag j : ℕ)
      → InRange c
      → j < length c.layouts
      → (k : ℕ) × (k ≤ length c.layouts)
        × (index_for (go_on k c tag) tag ≡ j)
        × (current_layout (go_on k c tag) tag ≡ get_elem? c.layouts j)
  unfolding InRange current_layout
  go_on_reaches c tag j h b =
      let i = index_for c tag in
      elim (Bool-cases (leb i j)) [
        | inl e ↦
            let (at, keeps) = go_on_up (j - i) c tag (ground (arith, e, b)) in
            let there : index_for (go_on (j - i) c tag) tag ≡ j = at ∙ ground (arith, e) in
            (j - i, omega (arith, b), there, rw (keeps, there) refl)
        | inr e ↦
            let below : i < length c.layouts = elim (h tag) [
              | inl f ↦ f
              | inr f ↦ absurd (ground (arith, e, f))
            ] in
            let over = length c.layouts - i - 1 in
            let (at, keeps) = go_on_over over c tag (omega (arith, below)) in
            let d = go_on (suc over) c tag in
            let len = ap (λ (ls : List T). length ls) keeps in
            let (at', keeps') = go_on_up j d tag (omega (arith, at, len, b)) in
            let k = suc over + j in
            let there : index_for (go_on k c tag) tag ≡ j =
              rw (go_on-add (suc over) j c tag) (omega (arith, at', at)) in
            let same : (go_on k c tag).layouts ≡ c.layouts =
              rw (go_on-add (suc over) j c tag) (keeps' ∙ keeps) in
            (k, ground (arith, below, e), there, rw (same, there) refl)
      ]
