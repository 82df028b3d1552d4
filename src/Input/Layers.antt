-- ===== src/Input/Layers.antt =====
-- src/input/bind.rs: `BindState`, the stack of bind layers and the settings of a bind, which is looked
-- up among the key binds first and then among the mouse binds.
pub mod Laws
use Prim.Native.String.{String}
use mathlib.Core.List.{reverse}
use text.Mathlib.Text.{◌==◌ as str_eq}
use pinnacle.Common.{
  ℕ, Bool, true, false, not, List, [], ◌∷◌, ◌++◌, Option, none, some, retain, last?,
}
use pinnacle.Deps.{IndexMap}
use pinnacle.Input.Bind.{BindData}
use pinnacle.Input.Keybinds.{Keybind, Keybinds}
use pinnacle.Input.Mousebinds.{Mousebind, Mousebinds}

pub record BindState : Type 0 where
  pub layer_stack : List String
  pub keybinds : Keybinds
  pub mousebinds : Mousebinds

unfoldable pub clear : BindState → BindState
clear s = record s {
  keybinds = record s.keybinds { id_map = []; keysym_map = [] };
  mousebinds = record s.mousebinds { id_map = []; button_map = [] };
}

unfoldable pub enter_layer : Option String → BindState → BindState
enter_layer none s = record s { layer_stack = [] }
enter_layer (some layer) s = record s {
  layer_stack = retain (λ l. not (str_eq l layer)) s.layer_stack ++ layer ∷ [];
}

unfoldable pub current_layer : BindState → Option String
current_layer s = last? s.layer_stack

-- `Vec::pop`.
abbrev pub drop_last {ℓ} : {A : Type ℓ} → List A → List A
drop_last [] = []
drop_last (x ∷ []) = []
drop_last (x ∷ y ∷ xs) = x ∷ drop_last (y ∷ xs)

unfoldable pub enter_previous_layer : BindState → BindState
enter_previous_layer s = record s { layer_stack = drop_last s.layer_stack }

module _ ⦃keys : IndexMap Keybind⦄ ⦃buttons : IndexMap Mousebind⦄ where
  -- What `set_bind_group` and its siblings have in common.
  unfoldable pub set_bind_data : (BindData → BindData) → ℕ → BindState → BindState
  set_bind_data f id s = elim (keys.get s.keybinds.id_map id) [
    | some b ↦ record s {
      keybinds = record s.keybinds {
        id_map = keys.put s.keybinds.id_map id (record b { bind_data = f b.bind_data });
      };
    }
    | none ↦ elim (buttons.get s.mousebinds.id_map id) [
      | some b ↦ record s {
        mousebinds = record s.mousebinds {
          id_map = buttons.put s.mousebinds.id_map id (record b { bind_data = f b.bind_data });
        };
      }
      | none ↦ s
    ]
  ]

  unfoldable pub set_bind_group : ℕ → String → BindState → BindState
  unfolding set_bind_data
  set_bind_group id group = set_bind_data (λ d. record d { group = group }) id

  unfoldable pub set_bind_desc : ℕ → String → BindState → BindState
  unfolding set_bind_data
  set_bind_desc id desc = set_bind_data (λ d. record d { desc = desc }) id

  unfoldable pub set_quit : ℕ → Bool → BindState → BindState
  unfolding set_bind_data
  set_quit id on = set_bind_data (λ d. record d { is_quit_bind = on }) id

  unfoldable pub set_reload_config : ℕ → Bool → BindState → BindState
  unfolding set_bind_data
  set_reload_config id on = set_bind_data (λ d. record d { is_reload_config_bind = on }) id

  unfoldable pub set_allow_when_locked : ℕ → Bool → BindState → BindState
  unfolding set_bind_data
  set_allow_when_locked id on = set_bind_data (λ d. record d { allow_when_locked = on }) id
