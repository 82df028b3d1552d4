-- ===== src/Input/Mousebinds.antt =====
-- src/input/bind.rs: `Mousebinds`, in the terms of `Keybinds`.
pub mod Unpaired
use Prim.Native.String.{String}
use pinnacle.Common.{
  ℕ, ◌+◌, ◌%◌, Bool, true, false, not, ◌&&◌, ◌||◌, List, [], ◌∷◌, ◌++◌, Option, none, some, lookup,
  without_key, retain_key, if◌then◌else◌, is_some,
}
use pinnacle.Deps.{IndexMap}
use pinnacle.Input.Bind.{
  Edge, press, release, ModifiersState, matches, BindData, BindAction, forward, suppress, quit,
  reload_config, same_layer, is_final,
}
use pinnacle.Input.Keybinds.{Pressing, or_nil, remember, send_if}

pub record Mousebind : Type 0 where
  pub bind_data : BindData
  pub button : ℕ
  pub open_end : Bool
  pub has_on_press : Bool

pub record Mousebinds : Type 0 where
  pub id_map : List (ℕ × Mousebind)
  pub button_map : List (ℕ × List ℕ)
  pub last_pressed : List (ℕ × List ℕ)
  pub sent : List (ℕ × Edge)

unfoldable pub press_mousebind :
    ℕ → ModifiersState → Option String → (locked : Bool) → Mousebind → Pressing → Pressing × Bool
unfolding matches
press_mousebind button mods layer locked b st =
    let id = b.bind_data.id in
    if is_final st.action
    then (st, true)
    else if matches b.bind_data.mods mods
    then (let seen : Pressing = record st {
      clear = st.clear || b.has_on_press;
      last_pressed = remember button id st.last_pressed;
    } in
        if b.bind_data.is_quit_bind
        then (record seen { action = quit }, true)
        else if b.bind_data.is_reload_config_bind
        then (record seen { action = reload_config }, true)
        else if b.has_on_press
            && same_layer layer b.bind_data.layer
            && (not locked || b.bind_data.allow_when_locked)
        then (
          record seen { action = suppress; sent = send_if b.open_end id press st.sent },
          b.open_end,
        )
        else (seen, true))
    else (st, true)

module _ ⦃binds : IndexMap Mousebind⦄ where
  unfoldable pub press_mousebinds :
      List (ℕ × Mousebind)
      → ℕ
      → ModifiersState
      → Option String
      → (locked : Bool) → List ℕ
      → Pressing
      → Pressing × List ℕ
  unfolding press_mousebind
  press_mousebinds id_map button mods layer locked [] st = (st, [])
  press_mousebinds id_map button mods layer locked (i ∷ is) st = elim (binds.get id_map i) [
    | none ↦ press_mousebinds id_map button mods layer locked is st
    | some b ↦
        let (st', kept) = press_mousebind button mods layer locked b st in
        let (st'', rest) = press_mousebinds id_map button mods layer locked is st' in
        (st'', if kept then i ∷ rest else rest)
  ]

  unfoldable pub release_mousebinds :
      (locked : Bool) → List ℕ → BindAction → Mousebinds → BindAction × Mousebinds
  release_mousebinds locked [] action s = (action, s)
  release_mousebinds locked (i ∷ is) action s = elim (binds.get s.id_map i) [
    | none ↦ release_mousebinds locked is action s
    | some b ↦
        let next : Mousebinds = record s {
          id_map = if b.open_end then s.id_map else binds.take_out s.id_map i;
          sent = send_if b.open_end b.bind_data.id release s.sent;
        } in
        let rest =
          release_mousebinds locked is (if b.has_on_press then suppress else action) next in
        if b.bind_data.is_quit_bind
        then (quit, s)
        else if b.bind_data.is_reload_config_bind
        then (reload_config, s)
        else if locked && not b.bind_data.allow_when_locked
        then (forward, s)
        else rest
  ]

module _ ⦃binds : IndexMap Mousebind⦄ ⦃lists : IndexMap (List ℕ)⦄ where
  unfoldable pub btn :
      ℕ
      → ModifiersState
      → Edge
      → Option String
      → (locked : Bool) → Mousebinds
      → BindAction × Mousebinds
  unfolding press_mousebinds release_mousebinds
  btn button mods press layer locked s = elim (lists.get s.button_map button) [
    | none ↦ (forward, s)
    | some is ↦
        let (st, kept) = press_mousebinds s.id_map button mods layer locked is (record {
          action = forward;
          clear = false;
          last_pressed = s.last_pressed;
          sent = s.sent;
        }) in
        (
          st.action,
          record s {
            button_map = lists.put s.button_map button kept;
            last_pressed = if st.clear then retain_key button st.last_pressed else st.last_pressed;
            sent = st.sent;
          },
        )
  ]
  btn button mods release layer locked s = elim (lists.get s.button_map button) [
    | none ↦ (forward, s)
    | some is ↦ elim (lookup button s.last_pressed) [
      | none ↦ (forward, s)
      | some ids ↦
          release_mousebinds locked ids forward
            (record s { last_pressed = without_key button s.last_pressed })
    ]
  ]

  unfoldable pub add_mousebind : ℕ → BindData → ℕ → Mousebinds → Option (ℕ × ℕ × Mousebinds)
  add_mousebind button bind_data counter s =
      if is_some (binds.get s.id_map counter)
      then none
      else some (
        counter,
        (counter + 1) % 4294967296,
        record s {
          id_map = binds.put s.id_map counter (record {
            bind_data = record bind_data { id = counter };
            button = button;
            open_end = true;
            has_on_press = false;
          });
          button_map =
              lists.put s.button_map button
                (or_nil (lists.get s.button_map button) ++ counter ∷ []);
        },
      )

  unfoldable pub remove_mousebind : ℕ → Mousebinds → Mousebinds
  remove_mousebind id s = record s { id_map = binds.take_out s.id_map id }

  unfoldable pub set_mousebind_has_on_press : ℕ → Mousebinds → Mousebinds
  set_mousebind_has_on_press id s = elim (binds.get s.id_map id) [
    | none ↦ s
    | some b ↦ record s { id_map = binds.put s.id_map id (record b { has_on_press = true }) }
  ]
