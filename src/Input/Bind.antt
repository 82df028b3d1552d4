-- ===== src/Input/Bind.antt =====
-- src/input/bind.rs: what key binds and mouse binds have in common.
use Prim.Native.String.{String}
use text.Mathlib.Text.{◌==◌ as str_eq}
use pinnacle.Common.{ℕ, Bool, true, false, not, ◌&&◌, Option, none, some}

pub data Edge : Type 0 where
  press release : Edge

pub record ModMask : Type 0 where
  pub shift : Option Bool
  pub ctrl : Option Bool
  pub alt : Option Bool
  pub super : Option Bool
  pub iso_level3_shift : Option Bool
  pub iso_level5_shift : Option Bool

-- `ModifiersState` of smithay, the modifiers that are down.
pub record ModifiersState : Type 0 where
  pub shift : Bool
  pub ctrl : Bool
  pub alt : Bool
  pub logo : Bool
  pub iso_level3_shift : Bool
  pub iso_level5_shift : Bool

abbrev pub same_bool : Bool → Bool → Bool
same_bool true b = b
same_bool false b = not b

-- `mask.is_none_or(|m| m == down)`.
abbrev pub none_or_is : Option Bool → Bool → Bool
none_or_is none down = true
none_or_is (some m) down = same_bool m down

unfoldable pub new_mask : ModMask
new_mask = record {
  shift = some false;
  ctrl = some false;
  alt = some false;
  super = some false;
  iso_level3_shift = some false;
  iso_level5_shift = some false;
}

unfoldable pub matches : ModMask → ModifiersState → Bool
matches m s =
    none_or_is m.shift s.shift
    && none_or_is m.ctrl s.ctrl
    && none_or_is m.alt s.alt
    && none_or_is m.super s.logo
    && none_or_is m.iso_level3_shift s.iso_level3_shift
    && none_or_is m.iso_level5_shift s.iso_level5_shift

pub record BindData : Type 0 where
  pub id : ℕ
  pub mods : ModMask
  pub layer : Option String
  pub group : String
  pub desc : String
  pub is_quit_bind : Bool
  pub is_reload_config_bind : Bool
  pub allow_when_locked : Bool

pub data BindAction : Type 0 where
  forward suppress quit reload_config : BindAction

abbrev pub same_layer : Option String → Option String → Bool
same_layer none none = true
same_layer none (some b) = false
same_layer (some a) none = false
same_layer (some a) (some b) = str_eq a b

-- `if let BindAction::Quit | BindAction::ReloadConfig = bind_action`.
abbrev pub is_final : BindAction → Bool
is_final forward = false
is_final suppress = false
is_final quit = true
is_final reload_config = true
