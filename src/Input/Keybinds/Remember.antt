-- ===== src/Input/Keybinds/Remember.antt =====
-- src/input/bind.rs: which binds `last_pressed_triggered_binds` remembers of a press.
use Prim.Native.String.{String}
use mathlib.Core.List.{append-nil, append_assoc}
use pinnacle.Common.{
  ℕ, ◌≡◌, refl, sym, Bool, false, ◌&&◌, ◌||◌, List, [], ◌∷◌, ◌++◌, Option, lookup, arith, map,
  if◌then◌else◌, Option-cases, Bool-cases, inl, inr, lookup-insert,
}
use pinnacle.Deps.{IndexMap}
use pinnacle.Input.Bind.{ModifiersState, forward, is_final}
use pinnacle.Input.Keybinds.{Keybind, Pressing, is_told, press_bind, press_binds, remember, or_nil}
use pinnacle.Input.Keybinds.Press.{
  live, ends_it, fits, told, step_none, step_some, step_bind, final_stays, press_binds_lem,
}

abbrev pub ids_of : List Keybind → List ℕ
ids_of = map (λ b. b.bind_data.id)

remembered_one :
    (key id : ℕ) (m : List (ℕ × List ℕ))
    → or_nil (lookup key (remember key id m)) ≡ or_nil (lookup key m) ++ id ∷ []
remembered_one key id m = ground (arith, lookup-insert key key (or_nil (lookup key m) ++ id ∷ []) m)

module _ (mods : ModifiersState) (layer : Option String) (inhibited locked : Bool) where
  step_last :
      (key : ℕ) (b : Keybind) (st : Pressing)
      → is_final st.action ≡ false
      → (press_bind key mods layer inhibited locked b st).0.last_pressed ≡ (
          if fits mods b && (ends_it b || is_told layer inhibited locked b)
          then remember key b.bind_data.id st.last_pressed
          else st.last_pressed)
  unfolding press_bind
  step_last key b st h = ground arith

  module _ ⦃binds : IndexMap Keybind⦄ where
    pub press_remembers :
        (m : List (ℕ × Keybind)) (key : ℕ) (is : List ℕ) (st : Pressing)
        → is_final st.action ≡ false
        → let r = (press_binds m key mods layer inhibited locked is st).0 in
          is_final r.action ≡ false
          → or_nil (lookup key r.last_pressed)
            ≡ or_nil (lookup key st.last_pressed)
              ++ ids_of (told mods layer inhibited locked (live m is))
    press_remembers m key [] st h e = unfold press_binds in sym (append-nil _)
    press_remembers m key (i ∷ is) st h e = elim (Option-cases (lookup i m)) [
      | inl n ↦ ground (
        arith,
        n,
        step_none mods layer inhibited locked m key i is st n,
        press_remembers m key is st h,
      )
      | inr (b, n) ↦
          let st' = (press_bind key mods layer inhibited locked b st).0 in
          elim (Bool-cases (is_final st'.action)) [
            | inl f ↦ ground (
              arith,
              step_some mods layer inhibited locked m key i is st b n,
              final_stays mods layer inhibited locked m key is st' f,
            )
            | inr f ↦ ground (
              arith,
              step_some mods layer inhibited locked m key i is st b n,
              step_bind mods layer inhibited locked key b st h,
              step_last key b st h,
              press_remembers m key is st' f,
              remembered_one key b.bind_data.id st.last_pressed,
              append_assoc (or_nil (lookup key st.last_pressed)) (b.bind_data.id ∷ [])
                  (ids_of (told mods layer inhibited locked (live m is))),
            )
          ]
    ]

    -- A press that goes through to the client is not remembered.
    pub forward_remembers_nothing :
        (m : List (ℕ × Keybind)) (key : ℕ) (is : List ℕ) (st : Pressing)
        → is_final st.action ≡ false
        → let r = (press_binds m key mods layer inhibited locked is st).0 in
          r.action ≡ forward → r.last_pressed ≡ st.last_pressed
    forward_remembers_nothing m key [] st h e = unfold press_binds in refl
    forward_remembers_nothing m key (i ∷ is) st h e = elim (Option-cases (lookup i m)) [
      | inl n ↦ ground (
        arith,
        step_none mods layer inhibited locked m key i is st n,
        forward_remembers_nothing m key is st h,
      )
      | inr (b, n) ↦
          let st' = (press_bind key mods layer inhibited locked b st).0 in
          elim (Bool-cases (is_final st'.action)) [
            | inl f ↦ ground (
              arith,
              step_some mods layer inhibited locked m key i is st b n,
              final_stays mods layer inhibited locked m key is st' f,
            )
            | inr f ↦ ground (
              arith,
              step_some mods layer inhibited locked m key i is st b n,
              step_bind mods layer inhibited locked key b st h,
              step_last key b st h,
              press_binds_lem mods layer inhibited locked m key is st' f,
              forward_remembers_nothing m key is st' f,
            )
          ]
    ]
