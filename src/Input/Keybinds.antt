-- ===== src/Input/Keybinds.antt =====
-- src/input/bind.rs: `Keybinds`. A key is its keysym, a number. A `Weak` pointer to a bind is the
-- bind's id, and it can be upgraded while the bind is in `id_map`. Sending on a bind's channel fails
-- once the other end was dropped; what is sent is logged.
pub mod Press
pub mod Remember
pub mod Release
pub mod Pairing
pub mod Ids
use Prim.Native.String.{String}
use pinnacle.Common.{
  ℕ, ◌+◌, ◌%◌, Bool, true, false, not, ◌&&◌, ◌||◌, List, [], ◌∷◌, ◌++◌, Option, none, some, lookup,
  insert_entry, without_key, retain_key, if◌then◌else◌, is_some,
}
use pinnacle.Deps.{IndexMap}
use pinnacle.Input.Bind.{
  Edge, press, release, ModMask, ModifiersState, matches, BindData, BindAction, forward, suppress,
  quit, reload_config, same_layer, is_final,
}

pub record Keybind : Type 0 where
  pub bind_data : BindData
  pub key : ℕ
  pub open_end : Bool
  pub has_on_press : Bool

pub record Keybinds : Type 0 where
  pub id_map : List (ℕ × Keybind)
  pub keysym_map : List (ℕ × List ℕ)
  pub last_pressed : List (ℕ × List ℕ)
  pub sent : List (ℕ × Edge)

-- The variables that the closure of `retain` captures.
pub record Pressing : Type 0 where
  pub action : BindAction
  pub clear : Bool
  pub last_pressed : List (ℕ × List ℕ)
  pub sent : List (ℕ × Edge)

abbrev pub or_nil : Option (List ℕ) → List ℕ
or_nil none = []
or_nil (some l) = l

-- `last_pressed_triggered_binds.entry(key).or_default().push(id)`.
abbrev pub remember : ℕ → ℕ → List (ℕ × List ℕ) → List (ℕ × List ℕ)
remember key id m = insert_entry key (or_nil (lookup key m) ++ id ∷ []) m

-- `keybind.sender.send(edge)`.
abbrev pub send_if : Bool → ℕ → Edge → List (ℕ × Edge) → List (ℕ × Edge)
send_if true id edge log = log ++ (id, edge) ∷ []
send_if false id edge log = log

-- Whether a config is told of the press.
unfoldable pub is_told : Option String → (inhibited locked : Bool) → Keybind → Bool
is_told layer inhibited locked b =
    b.has_on_press
    && same_layer layer b.bind_data.layer
    && (not inhibited && (not locked || b.bind_data.allow_when_locked))

-- The closure of `retain` on a bind that is still there: also whether it stays in the list.
unfoldable pub press_bind :
    ℕ
    → ModifiersState
    → Option String
    → (inhibited locked : Bool) → Keybind
    → Pressing
    → Pressing × Bool
unfolding matches is_told
press_bind key mods layer inhibited locked b st =
    let id = b.bind_data.id in
    if is_final st.action
    then (st, true)
    else if matches b.bind_data.mods mods
    then (let seen : Pressing = record st { clear = st.clear || b.has_on_press } in
        let caught : Pressing = record seen { last_pressed = remember key id st.last_pressed } in
        if b.bind_data.is_quit_bind
        then (record caught { action = quit }, true)
        else if b.bind_data.is_reload_config_bind
        then (record caught { action = reload_config }, true)
        else if is_told layer inhibited locked b
        then (
          record caught { action = suppress; sent = send_if b.open_end id press st.sent },
          b.open_end,
        )
        else (seen, true))
    else (st, true)

module _ ⦃binds : IndexMap Keybind⦄ where
  unfoldable pub press_binds :
      List (ℕ × Keybind)
      → ℕ
      → ModifiersState
      → Option String
      → (inhibited locked : Bool) → List ℕ
      → Pressing
      → Pressing × List ℕ
  unfolding press_bind
  press_binds id_map key mods layer inhibited locked [] st = (st, [])
  press_binds id_map key mods layer inhibited locked (i ∷ is) st = elim (binds.get id_map i) [
    | none ↦ press_binds id_map key mods layer inhibited locked is st
    | some b ↦
        let (st', kept) = press_bind key mods layer inhibited locked b st in
        let (st'', rest) = press_binds id_map key mods layer inhibited locked is st' in
        (st'', if kept then i ∷ rest else rest)
  ]

  -- The loop over the binds that the last press of the key triggered.
  unfoldable pub release_binds :
      (inhibited locked : Bool) → List ℕ → BindAction → Keybinds → BindAction × Keybinds
  release_binds inhibited locked [] action s = (action, s)
  release_binds inhibited locked (i ∷ is) action s = elim (binds.get s.id_map i) [
    | none ↦ release_binds inhibited locked is action s
    | some b ↦
        let next : Keybinds = record s {
          id_map = if b.open_end then s.id_map else binds.take_out s.id_map i;
          sent = send_if b.open_end b.bind_data.id release s.sent;
        } in
        let rest =
          release_binds inhibited locked is (if b.has_on_press then suppress else action) next in
        if b.bind_data.is_quit_bind
        then (quit, s)
        else if b.bind_data.is_reload_config_bind
        then (reload_config, s)
        else if inhibited || (locked && not b.bind_data.allow_when_locked)
        then (forward, s)
        else rest
  ]

module _ ⦃binds : IndexMap Keybind⦄ ⦃lists : IndexMap (List ℕ)⦄ where
  unfoldable pub key :
      ℕ
      → ModifiersState
      → Edge
      → Option String
      → (inhibited locked : Bool) → Keybinds
      → BindAction × Keybinds
  unfolding press_binds release_binds
  key sym mods press layer inhibited locked s = elim (lists.get s.keysym_map sym) [
    | none ↦ (forward, s)
    | some is ↦
        let (st, kept) = press_binds s.id_map sym mods layer inhibited locked is (record {
          action = forward;
          clear = false;
          last_pressed = s.last_pressed;
          sent = s.sent;
        }) in
        (
          st.action,
          record s {
            keysym_map = lists.put s.keysym_map sym kept;
            last_pressed = if st.clear then retain_key sym st.last_pressed else st.last_pressed;
            sent = st.sent;
          },
        )
  ]
  key sym mods release layer inhibited locked s = elim (lists.get s.keysym_map sym) [
    | none ↦ (forward, s)
    | some is ↦ elim (lookup sym s.last_pressed) [
      | none ↦ (forward, s)
      | some ids ↦
          release_binds inhibited locked ids forward
            (record s { last_pressed = without_key sym s.last_pressed })
    ]
  ]

  -- `none` is the failed assertion. The counter of ids is a `u32`.
  unfoldable pub add_keybind : ℕ → BindData → ℕ → Keybinds → Option (ℕ × ℕ × Keybinds)
  add_keybind sym bind_data counter s =
      if is_some (binds.get s.id_map counter)
      then none
      else some (
        counter,
        (counter + 1) % 4294967296,
        record s {
          id_map = binds.put s.id_map counter (record {
            bind_data = record bind_data { id = counter };
            key = sym;
            open_end = true;
            has_on_press = false;
          });
          keysym_map =
              lists.put s.keysym_map sym (or_nil (lists.get s.keysym_map sym) ++ counter ∷ []);
        },
      )

  unfoldable pub remove_keybind : ℕ → Keybinds → Keybinds
  remove_keybind id s = record s { id_map = binds.take_out s.id_map id }

  unfoldable pub set_keybind_has_on_press : ℕ → Keybinds → Keybinds
  set_keybind_has_on_press id s = elim (binds.get s.id_map id) [
    | none ↦ s
    | some b ↦ record s { id_map = binds.put s.id_map id (record b { has_on_press = true }) }
  ]
