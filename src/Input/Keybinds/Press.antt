-- ===== src/Input/Keybinds/Press.antt =====
-- src/input/bind.rs: what a press of a key comes to, and who is told of it.
use Prim.Native.String.{String}
use mathlib.Core.List.{append-nil, append_assoc}
use pinnacle.Common.{
  ℕ, ◌≡◌, refl, sym, Bool, true, false, not, ◌&&◌, ◌||◌, List, [], ◌∷◌, ◌++◌, Option, none, some,
  lookup, arith, find, any, retain, map, if◌then◌else◌, Option-cases, Bool-cases, inl, inr,
}
use pinnacle.Deps.{IndexMap}
use pinnacle.Input.Bind.{
  Edge, press, ModifiersState, matches, BindAction, suppress, quit, reload_config, is_final,
}
use pinnacle.Input.Keybinds.{Keybind, Pressing, is_told, press_bind, press_binds}

-- The binds that are still there.
abbrev pub live : List (ℕ × Keybind) → List ℕ → List Keybind
live m [] = []
live m (i ∷ is) = let rest = live m is in elim (lookup i m) [ none ↦ rest | some b ↦ b ∷ rest ]

abbrev pub ends_it : Keybind → Bool
ends_it b = b.bind_data.is_quit_bind || b.bind_data.is_reload_config_bind

-- The binds before the first that quits or reloads.
abbrev pub before_end : List Keybind → List Keybind
before_end [] = []
before_end (b ∷ bs) = let rest = before_end bs in if ends_it b then [] else b ∷ rest

abbrev pub fits : ModifiersState → Keybind → Bool
fits mods b = matches b.bind_data.mods mods

module _ (mods : ModifiersState) (layer : Option String) (inhibited locked : Bool) where
  -- The binds that are told of the press.
  abbrev pub told : List Keybind → List Keybind
  told bs = retain (is_told layer inhibited locked) (before_end (retain (fits mods) bs))

  abbrev pub presses : List Keybind → List (ℕ × Edge)
  presses bs = map (λ b. (b.bind_data.id, press)) (retain (λ b. b.open_end) (told bs))

  abbrev or_action : Option Keybind → BindAction → BindAction
  or_action none a = a
  or_action (some b) a = if b.bind_data.is_quit_bind then quit else reload_config

  -- The first fitting bind that quits or reloads decides; with none, the press is kept from the
  -- client if some fitting bind is told of it.
  abbrev pub verdict : List Keybind → BindAction → BindAction
  verdict bs a =
      or_action (find ends_it (retain (fits mods) bs))
        (if any (is_told layer inhibited locked) (retain (fits mods) bs) then suppress else a)

  pub step_final :
      (key : ℕ) (b : Keybind) (st : Pressing)
      → is_final st.action ≡ true
      → (press_bind key mods layer inhibited locked b st).0 ≡ st
  unfolding press_bind
  step_final key b st h = ground arith

  pub step_bind :
      (key : ℕ) (b : Keybind) (st : Pressing)
      → is_final st.action ≡ false
      → let r = (press_bind key mods layer inhibited locked b st).0 in
        (r.action ≡ (
          if fits mods b
          then (if ends_it b
              then (if b.bind_data.is_quit_bind then quit else reload_config)
              else if is_told layer inhibited locked b
              then suppress
              else st.action)
          else st.action))
        × (r.sent ≡ (
            if (fits mods b && not (ends_it b)) && (is_told layer inhibited locked b && b.open_end)
            then st.sent ++ (b.bind_data.id, press) ∷ []
            else st.sent))
  unfolding press_bind
  step_bind key b st h = ground arith

  module _ ⦃binds : IndexMap Keybind⦄ where
    pub final_stays :
        (m : List (ℕ × Keybind)) (sym : ℕ) (is : List ℕ) (st : Pressing)
        → is_final st.action ≡ true
        → (press_binds m sym mods layer inhibited locked is st).0 ≡ st
    unfolding press_binds
    final_stays m sym [] st h = refl
    final_stays m sym (i ∷ is) st h = elim (Option-cases (lookup i m)) [
      | inl e ↦ rw (binds.get_lem m i, e, press_binds) (final_stays m sym is st h)
      | inr (b, e) ↦
          rw (binds.get_lem m i, e, press_binds, step_final sym b st h) (final_stays m sym is st h)
    ]

    pub step_none :
        (m : List (ℕ × Keybind)) (key i : ℕ) (is : List ℕ) (st : Pressing)
        → lookup i m ≡ none
        → (press_binds m key mods layer inhibited locked (i ∷ is) st).0
          ≡ (press_binds m key mods layer inhibited locked is st).0
    unfolding press_binds
    step_none m key i is st e = rw (binds.get_lem m i, e, press_binds) refl

    pub step_some :
        (m : List (ℕ × Keybind)) (key i : ℕ) (is : List ℕ) (st : Pressing) (b : Keybind)
        → lookup i m ≡ some b
        → (press_binds m key mods layer inhibited locked (i ∷ is) st).0
          ≡ (press_binds m key mods layer inhibited locked is
              (press_bind key mods layer inhibited locked b st).0).0
    unfolding press_binds
    step_some m key i is st b e = rw (binds.get_lem m i, e, press_binds) refl

    -- Pressing a key comes to the verdict on the binds of the key that are still there, and the ones
    -- told of it, in their order, are those that fit and want to be told, up to the first that quits or
    -- reloads, and whose config still listens.
    pub press_binds_lem :
        (m : List (ℕ × Keybind)) (key : ℕ) (is : List ℕ) (st : Pressing)
        → is_final st.action ≡ false
        → let r = (press_binds m key mods layer inhibited locked is st).0 in
          (r.action ≡ verdict (live m is) st.action) × (r.sent ≡ st.sent ++ presses (live m is))
    press_binds_lem m key [] st h = unfold press_binds in (refl, sym (append-nil st.sent))
    press_binds_lem m key (i ∷ is) st h = elim (Option-cases (lookup i m)) [
      | inl e ↦ ground (arith, step_none m key i is st e, press_binds_lem m key is st h)
      | inr (b, e) ↦
          let st' = (press_bind key mods layer inhibited locked b st).0 in
          let step = step_bind key b st h in
          elim (Bool-cases (is_final st'.action)) [
            | inl f ↦ ground (
              arith,
              step_some m key i is st b e,
              step,
              final_stays m key is st' f,
              append-nil st.sent,
            )
            | inr f ↦ ground (
              arith,
              step_some m key i is st b e,
              step,
              press_binds_lem m key is st' f,
              append_assoc st.sent ((b.bind_data.id, press) ∷ []) (presses (live m is)),
            )
          ]
    ]
