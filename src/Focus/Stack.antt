-- ===== src/Focus/Stack.antt =====
-- src/focus.rs: the two focus stacks. Windows and outputs are pointers, compared by identity; the
-- top of a stack is the end of its list. What a window or an output answers about itself
-- (`is_on_active_tag`, `is_x11_override_redirect`, whether it has a global) is an argument.
use mathlib.Core.List.{reverse}
use pinnacle.Common.{
  ℕ, ◌-◌, Bool, true, false, not, List, [], ◌∷◌, ◌++◌, Option, none, length, retain, find, last?,
  insert_at, without, if◌then◌else◌,
}

pub record OutputFocusStack : Type 0 where
  pub stack : List ℕ

pub record WindowKeyboardFocusStack : Type 0 where
  pub stack : List ℕ
  pub focused : Bool

-- `OutputFocusStack`.
unfoldable pub focus_output_stack : OutputFocusStack → ℕ → OutputFocusStack
focus_output_stack s output = record { stack = without output s.stack ++ output ∷ [] }

unfoldable pub add_to_end : OutputFocusStack → ℕ → OutputFocusStack
add_to_end s output = record { stack = insert_at 0 output (without output s.stack) }

unfoldable pub remove_output_focus : OutputFocusStack → ℕ → OutputFocusStack
remove_output_focus s output = record { stack = without output s.stack }

unfoldable pub focusable_outputs : (ℕ → Bool) → OutputFocusStack → List ℕ
focusable_outputs enabled s = retain enabled s.stack

unfoldable pub current_output_focus : (ℕ → Bool) → OutputFocusStack → Option ℕ
unfolding focusable_outputs
current_output_focus enabled s = last? (focusable_outputs enabled s)

-- `WindowKeyboardFocusStack`.
unfoldable pub set_focus : WindowKeyboardFocusStack → ℕ → WindowKeyboardFocusStack
set_focus s window = record { stack = without window s.stack ++ window ∷ []; focused = true }

unfoldable pub add_focus : WindowKeyboardFocusStack → ℕ → WindowKeyboardFocusStack
add_focus s window =
    let kept = without window s.stack in
    record s { stack = insert_at (length kept - 1) window kept }

unfoldable pub unset_focus : WindowKeyboardFocusStack → WindowKeyboardFocusStack
unset_focus s = record s { focused = false }

unfoldable pub remove_focus : WindowKeyboardFocusStack → ℕ → WindowKeyboardFocusStack
remove_focus s window = record s { stack = without window s.stack }

unfoldable pub current_focus : (ℕ → Bool) → (ℕ → Bool) → WindowKeyboardFocusStack → Option ℕ
current_focus on_active_tag override_redirect s =
    if not s.focused
    then none
    else find (λ w. not (override_redirect w)) (retain on_active_tag (reverse s.stack))
