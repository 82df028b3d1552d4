-- ===== src/Input/Layers/Laws.antt =====
-- src/input/bind.rs: entering and leaving bind layers.
use Prim.Native.String.{String}
use text.Mathlib.Text.{◌==◌ as str_eq}
use pinnacle.Common.{
  ◌≡◌, refl, ◌∙◌, ap, Bool, false, not, List, [], ◌∷◌, ◌++◌, none, some, retain, last?-append_one,
  arith, any,
}
use pinnacle.Input.Layers.{BindState, enter_layer, current_layer, enter_previous_layer, drop_last}

drop_last-append_one : {A : Type 0} (xs : List A) (x : A) → drop_last (xs ++ x ∷ []) ≡ xs
drop_last-append_one [] x = refl
drop_last-append_one (y ∷ []) x = refl
drop_last-append_one (y ∷ z ∷ xs) x = ap (◌∷◌ y) (drop_last-append_one (z ∷ xs) x)

abbrev pub other_than : String → String → Bool
other_than layer l = not (str_eq l layer)

retain-absent :
    (layer : String) (ls : List String)
    → any (λ l. str_eq l layer) ls ≡ false
    → retain (other_than layer) ls ≡ ls
retain-absent layer [] h = refl
retain-absent layer (l ∷ ls) h = ground (arith, retain-absent layer ls)

-- The layer entered last is the current one; leaving it takes it off the stack and no other layer;
-- and where it was not entered already, the stack is then what it was. Entering no layer leaves none.
pub enter_layer_round_trip :
    (layer : String) (s : BindState)
    → (current_layer (enter_layer (some layer) s) ≡ some layer)
      × ((enter_previous_layer (enter_layer (some layer) s)).layer_stack
          ≡ retain (other_than layer) s.layer_stack)
      × (any (λ l. str_eq l layer) s.layer_stack ≡ false
          → enter_previous_layer (enter_layer (some layer) s) ≡ s)
      × (current_layer (enter_layer none s) ≡ none)
unfolding current_layer enter_layer enter_previous_layer
enter_layer_round_trip layer s = (
  last?-append_one (retain (other_than layer) s.layer_stack) layer,
  drop_last-append_one (retain (other_than layer) s.layer_stack) layer,
  λ h i. record s {
    layer_stack =
        (drop_last-append_one (retain (other_than layer) s.layer_stack) layer
            ∙ retain-absent layer s.layer_stack h)
          i;
  },
  refl,
)
