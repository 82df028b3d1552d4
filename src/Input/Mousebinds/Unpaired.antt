-- ===== src/Input/Mousebinds/Unpaired.antt =====
-- src/input/bind.rs: `btn` remembers every bind that fits a press, also those that are not told of it.
use Prim.Native.String.{String}
use pinnacle.Common.{
  ℕ, ◌≡◌, refl, true, false, List, [], ◌∷◌, ◌++◌, Option, none, some, lookup, arith, lookup-insert,
  lookup-retain_key, ==_refl, retain_key,
}
use pinnacle.Deps.{IndexMap}
use pinnacle.Input.Bind.{press, release, ModifiersState, matches, forward, suppress, same_layer}
use pinnacle.Input.Keybinds.{Pressing, remember}
use pinnacle.Input.Mousebinds.{
  Mousebind, Mousebinds, btn, press_mousebind, press_mousebinds, release_mousebinds,
}

module _ ⦃binds : IndexMap Mousebind⦄ ⦃lists : IndexMap (List ℕ)⦄ where
  abbrev start : Mousebinds → Pressing
  start s = record { action = forward; clear = false; last_pressed = s.last_pressed; sent = s.sent }

  press_one :
      (button : ℕ) (b : Mousebind) (mods : ModifiersState) (layer : Option String) (s : Mousebinds)
      → matches b.bind_data.mods mods ≡ true
      → b.has_on_press ≡ true
      → (b.bind_data.is_quit_bind ≡ false) × (b.bind_data.is_reload_config_bind ≡ false)
      → same_layer layer b.bind_data.layer ≡ false
      → press_mousebind button mods layer false b (start s) ≡ (
        record (start s) {
          clear = true;
          last_pressed = remember button b.bind_data.id s.last_pressed;
        },
        true,
      )
  unfolding press_mousebind
  press_one button b mods layer s m h q l = ground arith

  after_press :
      (button i : ℕ) (b : Mousebind) (mods : ModifiersState) (layer : Option String)
      (s : Mousebinds)
      → lookup button s.button_map ≡ some (i ∷ [])
      → lookup i s.id_map ≡ some b
      → matches b.bind_data.mods mods ≡ true
      → b.has_on_press ≡ true
      → (b.bind_data.is_quit_bind ≡ false) × (b.bind_data.is_reload_config_bind ≡ false)
      → same_layer layer b.bind_data.layer ≡ false
      → btn button mods press layer false s ≡ (
        forward,
        record s {
          button_map = lists.put s.button_map button (i ∷ []);
          last_pressed = retain_key button (remember button b.bind_data.id s.last_pressed);
        },
      )
  unfolding btn press_mousebinds
  after_press button i b mods layer s e f m h q l =
      rw
        (
          lists.get_lem s.button_map button,
          e,
          binds.get_lem s.id_map i,
          f,
          press_one button b mods layer s m h q l,
          btn,
          press_mousebinds,
        )
        refl

  after_release :
      (button i : ℕ) (b : Mousebind) (mods : ModifiersState) (layer : Option String)
      (t : Mousebinds)
      → lookup button t.button_map ≡ some (i ∷ [])
      → lookup i t.id_map ≡ some b
      → lookup button t.last_pressed ≡ some (i ∷ [])
      → b.has_on_press ≡ true
      → b.open_end ≡ true
      → (b.bind_data.is_quit_bind ≡ false) × (b.bind_data.is_reload_config_bind ≡ false)
      → let up = btn button mods release layer false t in
        (up.0 ≡ suppress) × (up.1.sent ≡ t.sent ++ (b.bind_data.id, release) ∷ [])
  unfolding btn release_mousebinds
  after_release button i b mods layer t e f n h o q =
      rw
        (
          lists.get_lem t.button_map button,
          e,
          n,
          binds.get_lem t.id_map i,
          f,
          btn,
          release_mousebinds,
        )
        (ground arith)

  -- A mouse bind of another layer lets the press of its button through to the client but keeps the
  -- release from it, and its config is told of a release that it was told no press of. The bind is the
  -- button's only one, fits the modifiers, wants presses, and neither quits nor reloads; the session is
  -- not locked, and the button was not down.
  pub btn_release_unpaired :
      (button i : ℕ) (b : Mousebind) (mods : ModifiersState) (layer : Option String)
      (s : Mousebinds)
      → lookup button s.button_map ≡ some (i ∷ [])
      → lookup i s.id_map ≡ some b
      → b.bind_data.id ≡ i
      → lookup button s.last_pressed ≡ none
      → matches b.bind_data.mods mods ≡ true
      → b.has_on_press ≡ true
      → b.open_end ≡ true
      → (b.bind_data.is_quit_bind ≡ false) × (b.bind_data.is_reload_config_bind ≡ false)
      → same_layer layer b.bind_data.layer ≡ false
      → let down = btn button mods press layer false s in
        let up = btn button mods release layer false down.1 in
        (down.0 ≡ forward)
        × (down.1.sent ≡ s.sent)
        × (up.0 ≡ suppress)
        × (up.1.sent ≡ s.sent ++ (i, release) ∷ [])
  btn_release_unpaired button i b mods layer s e f d n m h o q l =
      let down = after_press button i b mods layer s e f m h q l in
      let t : Mousebinds = record s {
        button_map = lists.put s.button_map button (i ∷ []);
        last_pressed = retain_key button (remember button b.bind_data.id s.last_pressed);
      } in
      let still : lookup button t.button_map ≡ some (i ∷ []) = ground (
        arith,
        lists.put_lem s.button_map button (i ∷ []),
        lookup-insert button button (i ∷ []) s.button_map,
        ==_refl button,
      ) in
      let noted : lookup button t.last_pressed ≡ some (i ∷ []) = ground (
        arith,
        lookup-retain_key button button (remember button b.bind_data.id s.last_pressed),
        lookup-insert button button (b.bind_data.id ∷ []) s.last_pressed,
        ==_refl button,
      ) in
      let up = after_release button i b mods layer t still f noted h o q in
      (
        ground (arith, down),
        ground (arith, down),
        ground (arith, down, up),
        ground (arith, down, up),
      )
