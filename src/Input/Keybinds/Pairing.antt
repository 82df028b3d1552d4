-- ===== src/Input/Keybinds/Pairing.antt =====
-- src/input/bind.rs: a press of a key and its release belong together.
use Prim.Native.String.{String}
use mathlib.Core.List.{append-nil}
use pinnacle.Common.{
  ℕ, ◌≡◌, refl, ◌∙◌, ap, sym, subst, Bool, true, false, List, [], ◌∷◌, ◌++◌, Option, none, some,
  lookup, arith, all, retain, if◌then◌else◌, lookup-insert, lookup-without, lookup-retain_key,
  ==_refl, retain_key, without_key,
}
use pinnacle.Deps.{IndexMap}
use pinnacle.Input.Bind.{press, release, ModifiersState, BindAction, forward, suppress, is_final}
use pinnacle.Input.Keybinds.{
  Keybind, Keybinds, Pressing, is_told, press_binds, release_binds, or_nil, key,
}
use pinnacle.Input.Keybinds.Press.{live, before_end, fits, told, presses, verdict, press_binds_lem}
use pinnacle.Input.Keybinds.Release.{
  Filed, Found, Found-Known, Found-retain, Found-before_end, Found-live, ready, releases, all-ready,
  release_step, release_told,
}
use pinnacle.Input.Keybinds.Remember.{ids_of, press_remembers, forward_remembers_nothing}

or_nil-some : (o : Option (List ℕ)) (x : ℕ) (xs : List ℕ) → or_nil o ≡ x ∷ xs → o ≡ some (x ∷ xs)
or_nil-some none x xs h = ground arith
or_nil-some (some l) x xs h = ap some h

lookup-after_clear :
    (clear : Bool) (k : ℕ) (m : List (ℕ × List ℕ))
    → lookup k (if clear then retain_key k m else m) ≡ lookup k m
lookup-after_clear true k m = ground (arith, lookup-retain_key k k m, ==_refl k)
lookup-after_clear false k m = refl

abbrev told_action : List Keybind → BindAction
told_action [] = forward
told_action (b ∷ bs) = suppress

module _ ⦃binds : IndexMap Keybind⦄ ⦃lists : IndexMap (List ℕ)⦄ where
  module _ (mods : ModifiersState) (layer : Option String) (inhibited locked : Bool) where
    -- A press that neither quits nor reloads is kept from the client exactly if someone is told.
    verdict-told :
        (bs : List Keybind)
        → is_final (verdict mods layer inhibited locked bs forward) ≡ false
        → verdict mods layer inhibited locked bs forward
          ≡ told_action (told mods layer inhibited locked bs)
    verdict-told [] h = refl
    verdict-told (b ∷ bs) h = ground (arith, verdict-told bs)

module _ ⦃binds : IndexMap Keybind⦄ ⦃lists : IndexMap (List ℕ)⦄ where
  module _ (mods : ModifiersState) (layer : Option String) (inhibited locked : Bool) where
    abbrev start : Keybinds → Pressing
    start s = record {
      action = forward;
      clear = false;
      last_pressed = s.last_pressed;
      sent = s.sent;
    }

    -- A press of a key that has binds.
    pub key_press :
        (k : ℕ) (is : List ℕ) (s : Keybinds)
        → lookup k s.keysym_map ≡ some is
        → let (st, kept) = press_binds s.id_map k mods layer inhibited locked is (start s) in
          key k mods press layer inhibited locked s ≡ (
            st.action,
            record s {
              keysym_map = lists.put s.keysym_map k kept;
              last_pressed = if st.clear then retain_key k st.last_pressed else st.last_pressed;
              sent = st.sent;
            },
          )
    unfolding key
    key_press k is s e = rw (lists.get_lem s.keysym_map k, e, key) refl

    -- A release of one that has.
    pub key_release :
        (k : ℕ) (is : List ℕ) (s : Keybinds)
        → lookup k s.keysym_map ≡ some is
        → key k mods release layer inhibited locked s ≡ (elim (lookup k s.last_pressed) [
          | none ↦ (forward, s)
          | some ids ↦
              release_binds inhibited locked ids forward
                (record s { last_pressed = without_key k s.last_pressed })
        ])
    unfolding key
    key_release k is s e = rw (lists.get_lem s.keysym_map k, e, key) refl

    -- What a press that neither quits nor reloads leaves behind.
    pressed :
        (k : ℕ) (is : List ℕ) (s : Keybinds)
        → lookup k s.keysym_map ≡ some is
        → lookup k s.last_pressed ≡ none
        → let down = key k mods press layer inhibited locked s in
          is_final down.0 ≡ false
          → let bs = told mods layer inhibited locked (live s.id_map is) in
            (down.0 ≡ told_action bs)
            × (down.1.sent ≡ s.sent ++ presses mods layer inhibited locked (live s.id_map is))
            × (or_nil (lookup k down.1.last_pressed) ≡ ids_of bs)
            × (down.0 ≡ forward → lookup k down.1.last_pressed ≡ none)
            × (down.1.id_map ≡ s.id_map)
            × ((kept : List ℕ) × (lookup k down.1.keysym_map ≡ some kept))
    pressed k is s e none_down ok =
        let st = start s in
        let r = press_binds s.id_map k mods layer inhibited locked is st in
        let down = key_press k is s e in
        let lem = press_binds_lem mods layer inhibited locked s.id_map k is st refl in
        let ok' : is_final (r.0).action ≡ false = ground (arith, down) in
        let last = lookup-after_clear (r.0).clear k (r.0).last_pressed in
        (
          ground (arith, down, lem, verdict-told mods layer inhibited locked (live s.id_map is)),
          ground (arith, down, lem),
          ground (
            arith,
            down,
            last,
            press_remembers mods layer inhibited locked s.id_map k is st refl ok',
          ),
          λ fw. ground (
            arith,
            down,
            last,
            forward_remembers_nothing mods layer inhibited locked s.id_map k is st refl,
          ),
          ground (arith, down),
          (
            r.1,
            ground (
              arith,
              down,
              lists.put_lem s.keysym_map k (r.1),
              lookup-insert k k (r.1) s.keysym_map,
              ==_refl k,
            ),
          ),
        )

    -- The release of a key whose last press told the binds.
    released :
        (k : ℕ) (is : List ℕ) (t : Keybinds) (bs : List Keybind)
        → lookup k t.keysym_map ≡ some is
        → or_nil (lookup k t.last_pressed) ≡ ids_of bs
        → (told_action bs ≡ forward → lookup k t.last_pressed ≡ none)
        → Found t.id_map bs
        → all (ready inhibited locked) bs ≡ true
        → let up = key k mods release layer inhibited locked t in
          (up.0 ≡ told_action bs)
          × (up.1.sent ≡ t.sent ++ releases inhibited locked bs)
          × (lookup k up.1.last_pressed ≡ none)
    released k is t [] e l n f r = ground (arith, key_release k is t e, append-nil t.sent, n refl)
    released k is t (b ∷ bs) e l n f r =
        let rest : Keybinds = record t { last_pressed = without_key k t.last_pressed } in
        let some_down = or_nil-some (lookup k t.last_pressed) b.bind_data.id (ids_of bs) l in
        let told_rest =
          release_told inhibited locked (b ∷ bs) rest r (Found-Known t.id_map (b ∷ bs) f) in
        ground (
          arith,
          key_release k is t e,
          some_down,
          told_rest,
          release_step inhibited locked b (ids_of bs) forward rest f.0 (ground arith),
          release_step inhibited locked b (ids_of bs) suppress rest f.0 (ground arith),
          lookup-without k k t.last_pressed,
          ==_refl k,
        )

module _ ⦃binds : IndexMap Keybind⦄ ⦃lists : IndexMap (List ℕ)⦄ where
  -- A press that neither quits nor reloads the config, of a key that was not down before, and its
  -- release, whatever modifiers are down by then and whatever layer is entered, are either both kept
  -- from the client or both let through; the configs that are told of the release are those that were
  -- told of the press, in the same order; and nothing of the press is remembered any longer. Every
  -- bind is filed under its own id, and neither the lock of the session nor the inhibition of
  -- shortcuts changes in between.
  pub press_release_pair :
      (mods mods' : ModifiersState) (layer layer' : Option String) (inhibited locked : Bool) (k : ℕ)
      (is : List ℕ) (s : Keybinds)
      → lookup k s.keysym_map ≡ some is
      → Filed s.id_map
      → lookup k s.last_pressed ≡ none
      → let down = key k mods press layer inhibited locked s in
        is_final down.0 ≡ false
        → let up = key k mods' release layer' inhibited locked down.1 in
          let bs = told mods layer inhibited locked (live s.id_map is) in
          (up.0 ≡ down.0)
          × (down.1.sent ≡ s.sent ++ presses mods layer inhibited locked (live s.id_map is))
          × (up.1.sent ≡ down.1.sent ++ releases inhibited locked bs)
          × (lookup k up.1.last_pressed ≡ none)
  press_release_pair mods mods' layer layer' inhibited locked k is s e filed none_down ok =
      let bs = told mods layer inhibited locked (live s.id_map is) in
      let down = key k mods press layer inhibited locked s in
      let (a, b, c, d, f, g) = pressed mods layer inhibited locked k is s e none_down ok in
      let found =
        Found-retain s.id_map (is_told layer inhibited locked)
          (before_end (retain (fits mods) (live s.id_map is)))
          (Found-before_end s.id_map (retain (fits mods) (live s.id_map is)) (
            Found-retain s.id_map (fits mods) (live s.id_map is) (Found-live s.id_map is filed))) in
      let (x, y, z) =
        released mods' layer' inhibited locked k (g.0) down.1 bs (g.1) c (λ h. d (a ∙ h))
          (subst (λ m. Found m bs) (sym f) found)
          (all-ready inhibited locked layer (retain (fits mods) (live s.id_map is))) in
      (x ∙ sym a, b, y, z)
