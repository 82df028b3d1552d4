-- ===== src/Examples/Maps.antt =====
-- Concrete instances of `IndexMap`, for the maps of binds.
use pinnacle.Common.{ℕ, List, refl, lookup, insert_entry, without_key}
use pinnacle.Deps.{IndexMap}
use pinnacle.Input.Keybinds.{Keybind}
use pinnacle.Input.Mousebinds.{Mousebind}

abbrev entries : (A : Type 0) → IndexMap A
entries A = record {
  get = λ m k. lookup k m;
  put = λ m k a. insert_entry k a m;
  take_out = λ m k. without_key k m;
  get_lem = λ m k. refl;
  put_lem = λ m k a. refl;
  take_out_lem = λ m k. refl;
}

instance abbrev pub keybind_entries : IndexMap Keybind
keybind_entries = entries Keybind

instance abbrev pub mousebind_entries : IndexMap Mousebind
mousebind_entries = entries Mousebind

instance abbrev pub list_entries : IndexMap (List ℕ)
list_entries = entries (List ℕ)
