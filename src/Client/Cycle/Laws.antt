-- ===== src/Client/Cycle/Laws.antt =====
-- api/rust/src/layout/generators.rs: cycling through the layouts of a tag.
use pinnacle.Common.{
  ℕ, zero, suc, ◌<◌, ◌≡◌, ◌⊎◌, inl, inr, refl, leb, length, if◌then◌else◌, ◌==◌, ==_refl, arith, ap,
  ◌∙◌, Bool-cases, lookup-insert,
}
use pinnacle.Client.Cycle.{
  Cycle, index_for, set_index, cycle_layout_forward, after, before, cycle_layout_backward,
}

abbrev Fits : (len i : ℕ) → Type 0
Fits len i = (i < len) ⊎ (i ≡ 0)

after-Fits : (len i : ℕ) → Fits len i → Fits len (after len i)
after-Fits len i h = elim (Bool-cases (leb len (suc i))) [
  | inl e ↦ inr (rw e refl)
  | inr e ↦ inl (rw e (ground (arith, e)))
]

before-Fits : (len i : ℕ) → Fits len i → Fits len (before len i)
before-Fits zero zero h = inr refl
before-Fits (suc len) zero h = inl (omega arith)
before-Fits len (suc i) (inl h) = inl (omega (arith, h))
before-Fits len (suc i) (inr h) = absurd (omega (arith, h))

before-after : (len i : ℕ) → Fits len i → before len (after len i) ≡ i
before-after len i h = elim (Bool-cases (leb len (suc i))) [
  | inl e ↦ rw e (elim h [ inl f ↦ ground (arith, f, e) | inr f ↦ ground (arith, f, e) ])
  | inr e ↦ rw e refl
]

after-before : (len i : ℕ) → Fits len i → after len (before len i) ≡ i
after-before zero i h = elim h [ inl f ↦ absurd (omega (arith, f)) | inr f ↦ rw f refl ]
after-before (suc len) zero h = ground arith
after-before (suc len) (suc i) (inl h) = ground (arith, h)
after-before (suc len) (suc i) (inr h) = absurd (omega (arith, h))

module _ {T : Type 0} where
  -- The index of every tag is that of a layout, or 0 where there are none.
  unfoldable pub InRange : Cycle T → Type 0
  InRange c = (tag : ℕ) → (index_for c tag < length c.layouts) ⊎ (index_for c tag ≡ 0)

  index_for-set_index :
      (c : Cycle T) (tag other index : ℕ)
      → index_for (set_index c tag index) other
        ≡ (if tag == other then index else index_for c other)
  index_for-set_index c tag other index =
      let found = lookup-insert tag other index c.tag_indices in
      elim (Bool-cases (tag == other)) [ inl e ↦ rw (found, e) refl | inr e ↦ rw (found, e) refl ]

  set_index-Fits :
      (c : Cycle T) (tag other index : ℕ)
      → InRange c
      → Fits (length c.layouts) index
      → Fits (length c.layouts) (index_for (set_index c tag index) other)
  unfolding InRange
  set_index-Fits c tag other index h f = elim (Bool-cases (tag == other)) [
    | inl e ↦ rw (index_for-set_index c tag other index, e) f
    | inr e ↦ rw (index_for-set_index c tag other index, e) (h other)
  ]

  pub forward_index :
      (c : Cycle T) (tag other : ℕ)
      → index_for (cycle_layout_forward c tag) other
        ≡ (if tag == other then after (length c.layouts) (index_for c tag) else index_for c other)
  unfolding cycle_layout_forward
  forward_index c tag other = index_for-set_index c tag other _

  pub backward_index :
      (c : Cycle T) (tag other : ℕ)
      → index_for (cycle_layout_backward c tag) other
        ≡ (if tag == other then before (length c.layouts) (index_for c tag) else index_for c other)
  unfolding cycle_layout_backward
  backward_index c tag other = index_for-set_index c tag other _

  pub forward_own :
      (c : Cycle T) (tag : ℕ)
      → index_for (cycle_layout_forward c tag) tag ≡ after (length c.layouts) (index_for c tag)
  forward_own c tag = forward_index c tag tag ∙ rw (==_refl tag) refl

  pub backward_own :
      (c : Cycle T) (tag : ℕ)
      → index_for (cycle_layout_backward c tag) tag ≡ before (length c.layouts) (index_for c tag)
  backward_own c tag = backward_index c tag tag ∙ rw (==_refl tag) refl

  pub forward_keeps : (c : Cycle T) (tag : ℕ) → (cycle_layout_forward c tag).layouts ≡ c.layouts
  unfolding cycle_layout_forward
  forward_keeps c tag = refl

  backward_keeps : (c : Cycle T) (tag : ℕ) → (cycle_layout_backward c tag).layouts ≡ c.layouts
  unfolding cycle_layout_backward
  backward_keeps c tag = refl

  -- Going on and going back keep every index in range.
  pub cycle-InRange :
      (c : Cycle T) (tag : ℕ)
      → InRange c
      → InRange (cycle_layout_forward c tag) × InRange (cycle_layout_backward c tag)
  unfolding InRange cycle_layout_forward cycle_layout_backward
  cycle-InRange c tag h = (
    λ other. set_index-Fits c tag other _ h (after-Fits _ _ (h tag)),
    λ other. set_index-Fits c tag other _ h (before-Fits _ _ (h tag)),
  )

  -- Going back after going on, and the other way round, give every tag the index that it had.
  pub cycle_round_trip :
      (c : Cycle T) (tag other : ℕ)
      → InRange c
      → (index_for (cycle_layout_backward (cycle_layout_forward c tag) tag) other
          ≡ index_for c other)
        × (index_for (cycle_layout_forward (cycle_layout_backward c tag) tag) other
            ≡ index_for c other)
  unfolding InRange
  cycle_round_trip c tag other h =
      let back = backward_index (cycle_layout_forward c tag) tag other in
      let on = forward_index (cycle_layout_backward c tag) tag other in
      elim (Bool-cases (tag == other)) [
        | inl e ↦
            let same : tag ≡ other = ground (arith, e) in
            (
              rw (back, e)
                  (rw (forward_own c tag, forward_keeps c tag)
                    (before-after _ _ (h tag) ∙ ap (index_for c) same)),
              rw (on, e)
                  (rw (backward_own c tag, backward_keeps c tag)
                    (after-before _ _ (h tag) ∙ ap (index_for c) same)),
            )
        | inr e ↦ (
          rw (back, e) (rw (forward_index c tag other, e) refl),
          rw (on, e) (rw (backward_index c tag other, e) refl),
        )
      ]
