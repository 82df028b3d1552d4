-- ===== src/Window/Api/Tags.antt =====
-- src/api/window.rs: which tags a window has after `set_tag` and `move_to_tag`.
use pinnacle.Common.{
  Distinct, ℕ, ◌≡◌, ◌≢◌, refl, ◌∙◌, ap, Bool, true, false, not, ◌&&◌, ◌||◌, List, [], ◌∷◌, Option,
  none, some, length, ltb, if◌then◌else◌, ◌==◌, ==_refl, arith, elem, elem-append, elem-without,
  Option-cases, inl, inr,
}
use pinnacle.Deps.{IndexSet}
use pinnacle.State.{Pinnacle, modify_window}
use pinnacle.Window.State.{WindowElementState}
use pinnacle.Tag.{tag_output}
use pinnacle.Window.Queries.{window_output}
use pinnacle.Layout.Request.{update_xwayland_stacking_order}
use pinnacle.Layout.Request.Frame.{stacking-OnlyLogs, request_layout-OnlyLogs}
use pinnacle.Window.Api.{move_to_tag, tags_set, set_tag, ask_layout, ask_layout_of}

module _ ⦃ix : IndexSet⦄ where
  ask_layout-windows :
      (o : Option ℕ) (p : Pinnacle) → (ask_layout_of o p).window_states ≡ p.window_states
  ask_layout-windows none p = refl
  ask_layout-windows (some o) p =
      ap (λ (q : Pinnacle). q.window_states) (request_layout-OnlyLogs o p)

  stacking-windows :
      (p : Pinnacle) → (update_xwayland_stacking_order p).window_states ≡ p.window_states
  stacking-windows p = ap (λ (q : Pinnacle). q.window_states) (stacking-OnlyLogs p)

  set_tag-windows :
      (w tag : ℕ) (set : Option Bool) (p : Pinnacle)
      → (set_tag w tag set p).window_states
        ≡ (modify_window w
            (λ (s : WindowElementState). record s { tags = tags_set tag set s.tags })
            p).window_states
  unfolding set_tag
  set_tag-windows w tag set p =
      let q =
        modify_window w (λ (s : WindowElementState). record s { tags = tags_set tag set s.tags })
          p in
      elim (Option-cases (tag_output tag q)) [
        | inl e ↦ rw (e, set_tag) refl
        | inr (o, e) ↦
            rw (e, set_tag) (stacking-windows (ask_layout o q) ∙ ask_layout-windows (some o) q)
      ]

  elem-tags_set :
      (tag t : ℕ) (set : Option Bool) (tags : List ℕ)
      → elem t (tags_set tag set tags) ≡ (
          if t == tag
          then (elim set [ none ↦ not (elem tag tags) || not (ltb 1 (length tags)) | some b ↦ b ])
          else elem t tags)
  unfolding tags_set
  elem-tags_set tag t (some true) tags =
      ground (arith, ix.insert_lem tags tag, elem-append t tags (tag ∷ []))
  elem-tags_set tag t (some false) tags =
      ground (arith, ix.shift_remove_lem tags tag, elem-without tag t tags)
  elem-tags_set tag t none tags = ground (
    arith,
    ix.insert_lem tags tag,
    elem-append t tags (tag ∷ []),
    ix.contains_lem tags tag,
    ix.shift_remove_lem tags tag,
    elem-without tag t tags,
  )

  not_empty : (tag : ℕ) (tags : List ℕ) → Distinct tags → tags ≢ [] → tags_set tag none tags ≢ []
  not_empty tag [] d h = λ e. h refl
  not_empty tag (x ∷ []) d h = λ e. ground (
    arith,
    elem-tags_set tag tag none (x ∷ []),
    elem-tags_set tag x none (x ∷ []),
    ap (elem tag) e,
    ap (elem x) e,
    ==_refl tag,
    ==_refl x,
  )
  not_empty tag (x ∷ y ∷ ts) d h = λ e. ground (
    arith,
    elem-tags_set tag x none (x ∷ y ∷ ts),
    elem-tags_set tag y none (x ∷ y ∷ ts),
    elem-tags_set tag tag none (x ∷ y ∷ ts),
    ap (elem x) e,
    ap (elem y) e,
    ap (elem tag) e,
  )

  -- `set_tag` gives the window the tag, takes it away, or toggles it, where a toggle does not take away
  -- the only tag; it leaves the window's other tags and the other windows' tags as they were; and a
  -- toggle never leaves a window without tags that had some.
  pub set_tag_lem :
      (w tag : ℕ) (set : Option Bool) (p : Pinnacle)
      → ((v t : ℕ)
          → elem t ((set_tag w tag set p).window_states v).tags ≡ (
              if (v == w) && (t == tag)
              then (elim set [
                | none ↦
                    not (elem tag (p.window_states w).tags)
                    || not (ltb 1 (length (p.window_states w).tags))
                | some b ↦ b
              ])
              else elem t (p.window_states v).tags))
        × (Distinct (p.window_states w).tags
            → (p.window_states w).tags ≢ []
            → ((set_tag w tag none p).window_states w).tags ≢ [])
  set_tag_lem w tag set p = (
    λ v t.
        ap (λ (f : ℕ → WindowElementState). elem t (f v).tags) (set_tag-windows w tag set p)
        ∙ ground (arith, elem-tags_set tag t set (p.window_states w).tags),
    λ d h e. not_empty tag (p.window_states w).tags d h (
        ground (
          arith,
          e,
          ap (λ (f : ℕ → WindowElementState). (f w).tags) (set_tag-windows w tag none p),
          ==_refl w,
        )),
  )

  move_to_tag-windows :
      (w tag : ℕ) (p : Pinnacle)
      → (move_to_tag w tag p).window_states
        ≡ (modify_window w
            (λ (s : WindowElementState). record s { tags = (ix.insert [] tag).0 })
            p).window_states
  unfolding move_to_tag
  move_to_tag-windows w tag p =
      let m =
        modify_window w (λ (s : WindowElementState). record s { tags = (ix.insert [] tag).0 }) p in
      let q = ask_layout_of (window_output w p) m in
      let same = ask_layout-windows (window_output w p) m in
      elim (Option-cases (tag_output tag q)) [
        | inl e ↦ rw (e, move_to_tag) (stacking-windows q ∙ same)
        | inr (o, e) ↦
            rw (e, move_to_tag)
              (stacking-windows _
                ∙ if_windows _ (ask_layout o q) q (ask_layout-windows (some o) q)
                ∙ same)
      ]
    where
      if_windows :
          (b : Bool) (r q : Pinnacle)
          → r.window_states ≡ q.window_states
          → (if b then r else q).window_states ≡ q.window_states
      if_windows true r q h = h
      if_windows false r q h = refl

  -- After `move_to_tag` the window has the one tag, and no other window's tags change.
  pub move_to_tag_lem :
      (w tag : ℕ) (p : Pinnacle) (v : ℕ)
      → ((move_to_tag w tag p).window_states v).tags
        ≡ (if v == w then tag ∷ [] else (p.window_states v).tags)
  move_to_tag_lem w tag p v =
      ap (λ (f : ℕ → WindowElementState). (f v).tags) (move_to_tag-windows w tag p)
      ∙ ground (arith, ix.insert_lem [] tag)
