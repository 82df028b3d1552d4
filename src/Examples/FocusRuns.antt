-- ===== src/Examples/FocusRuns.antt =====
-- src/focus.rs on a stack of three windows and one of two outputs.
use pinnacle.Common.{ℕ, ◌≡◌, ◌↔◌, refl, Bool, true, false, not, [], ◌∷◌, Distinct, ◌==◌}
use pinnacle.Focus.Stack.{WindowKeyboardFocusStack, OutputFocusStack, add_focus, current_focus}
use pinnacle.Focus.Windows.{sets, apply_focus, apply_focus-Distinct, add_focus_keeps_iff}

abbrev stacked : WindowKeyboardFocusStack
stacked = record { stack = 2 ∷ 1 ∷ 0 ∷ []; focused = true }

-- Window 0, the top, is on no active tag.
abbrev top_hidden : ℕ → Bool
top_hidden w = not (w == 0)

abbrev no_override : ℕ → Bool
no_override w = false

apply_focus-Distinct_example : Distinct (apply_focus (sets 2) stacked).stack
apply_focus-Distinct_example = (apply_focus-Distinct (sets 2) stacked (refl, (refl, (refl, tt)))).0

add_focus_keeps_iff_example :
    (current_focus top_hidden no_override (add_focus stacked 3)
      ≡ current_focus top_hidden no_override stacked)
    ↔ (false ≡ true)
add_focus_keeps_iff_example =
    add_focus_keeps_iff top_hidden no_override stacked 3 (2 ∷ 1 ∷ []) 0 refl refl refl refl

abbrev two_outputs : OutputFocusStack
two_outputs = record { stack = 1 ∷ 0 ∷ [] }
