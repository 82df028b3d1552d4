-- ===== src/Examples/InputRuns.antt =====
-- src/input/bind.rs: a key and a button with binds, pressed and released.
use Prim.Native.String.{String}
use pinnacle.Common.{ℕ, ◌≡◌, refl, arith, true, false, [], ◌∷◌, ◌++◌, Option, none, some, lookup}
use pinnacle.Input.Bind.{
  press, release, ModMask, ModifiersState, BindData, BindAction, forward, suppress, matches,
}
use pinnacle.Input.Keybinds.{Keybind, Keybinds, Pressing, key, is_told, press_binds}
use pinnacle.Input.Keybinds.Press.{press_binds_lem}
use pinnacle.Input.Keybinds.Release.{Filed}
use pinnacle.Input.Keybinds.Pairing.{press_release_pair}
use pinnacle.Input.Mousebinds.{Mousebind, Mousebinds, btn}
use pinnacle.Input.Mousebinds.Unpaired.{btn_release_unpaired}
use pinnacle.Input.Layers.{BindState}
use pinnacle.Examples.Maps.{keybind_entries, mousebind_entries, list_entries}

abbrev any_mods : ModMask
any_mods = record {
  shift = none;
  ctrl = some true;
  alt = none;
  super = none;
  iso_level3_shift = none;
  iso_level5_shift = none;
}

abbrev with_ctrl : ModifiersState
with_ctrl = record {
  shift = false;
  ctrl = true;
  alt = false;
  logo = false;
  iso_level3_shift = false;
  iso_level5_shift = false;
}

abbrev no_mods : ModifiersState
no_mods = record with_ctrl { ctrl = false }

abbrev data_of : ℕ → Option String → BindData
data_of i layer = record {
  id = i;
  mods = any_mods;
  layer = layer;
  group = "";
  desc = "";
  is_quit_bind = false;
  is_reload_config_bind = false;
  allow_when_locked = false;
}

abbrev here : Keybind
here = record { bind_data = data_of 0 none; key = 97; open_end = true; has_on_press = true }

abbrev elsewhere : Keybind
elsewhere = record {
  bind_data = data_of 1 (some "resize");
  key = 97;
  open_end = true;
  has_on_press = true;
}

abbrev keys : Keybinds
keys = record {
  id_map = (0, here) ∷ (1, elsewhere) ∷ [];
  keysym_map = (97, 1 ∷ 0 ∷ []) ∷ [];
  last_pressed = [];
  sent = [];
}

keys-Filed : Filed keys.id_map
keys-Filed i b e = ground arith

abbrev down : BindAction × Keybinds
down = key 97 with_ctrl press none false false keys

-- Control is up again, and a layer was entered.
abbrev up : BindAction × Keybinds
up = key 97 no_mods release (some "resize") false false down.1

down_is : (down.0 ≡ suppress) × (down.1.sent ≡ (0, press) ∷ [])
unfolding key
down_is = (refl, refl)

press_release_pair_example :
    (up.0 ≡ down.0)
    × (down.1.sent ≡ (0, press) ∷ [])
    × (up.1.sent ≡ down.1.sent ++ (0, release) ∷ [])
    × (lookup 97 up.1.last_pressed ≡ none)
unfolding key
press_release_pair_example =
    press_release_pair with_ctrl no_mods none (some "resize") false false 97 (1 ∷ 0 ∷ []) keys refl
      keys-Filed refl refl

abbrev nothing_pressed : Pressing
nothing_pressed = record { action = forward; clear = false; last_pressed = []; sent = [] }

press_binds_lem_example :
    ((press_binds keys.id_map 97 with_ctrl none false false (1 ∷ 0 ∷ []) nothing_pressed).0.action
      ≡ suppress)
    × ((press_binds keys.id_map 97 with_ctrl none false false (1 ∷ 0 ∷ []) nothing_pressed).0.sent
        ≡ (0, press) ∷ [])
unfolding matches is_told
press_binds_lem_example =
    press_binds_lem with_ctrl none false false keys.id_map 97 (1 ∷ 0 ∷ []) nothing_pressed refl

abbrev button_elsewhere : Mousebind
button_elsewhere = record {
  bind_data = data_of 3 (some "resize");
  button = 272;
  open_end = true;
  has_on_press = true;
}

abbrev buttons : Mousebinds
buttons = record {
  id_map = (3, button_elsewhere) ∷ [];
  button_map = (272, 3 ∷ []) ∷ [];
  last_pressed = [];
  sent = [];
}

btn_release_unpaired_example :
    let pushed = btn 272 with_ctrl press none false buttons in
    let let_go = btn 272 with_ctrl release none false pushed.1 in
    (pushed.0 ≡ forward)
    × (pushed.1.sent ≡ [])
    × (let_go.0 ≡ suppress)
    × (let_go.1.sent ≡ (3, release) ∷ [])
unfolding matches
btn_release_unpaired_example =
    btn_release_unpaired 272 3 button_elsewhere with_ctrl none buttons refl refl refl refl refl refl
      refl (refl, refl) refl

abbrev layers : BindState
layers = record { layer_stack = "resize" ∷ "move" ∷ []; keybinds = keys; mousebinds = buttons }
