-- ===== src/Focus/Outputs.antt =====
-- src/focus.rs: what the stack of outputs promises. Only outputs that are enabled (that have a
-- global) can be in focus.
use pinnacle.Common.{ℕ, ◌≡◌, ◌≢◌, Bool, [], ◌∷◌, none, some, arith, without, or_else, if◌then◌else◌}
use pinnacle.Focus.Topmost.{topmost, last?-retain, topmost-append, topmost-without}
use pinnacle.Focus.Stack.{
  OutputFocusStack, focus_output_stack, add_to_end, remove_output_focus, current_output_focus,
}

module _ (enabled : ℕ → Bool) where
  current_output-topmost :
      (s : OutputFocusStack) → current_output_focus enabled s ≡ topmost enabled s.stack
  unfolding current_output_focus
  current_output-topmost s = last?-retain enabled s.stack

  -- An enabled output has the focus once it was given it; an output that is added at the other end
  -- gets it only if it is enabled and no other output can have it; and removing an output that has
  -- not the focus leaves it where it is.
  pub current_output_focus_lem :
      (s : OutputFocusStack) (output : ℕ)
      → (current_output_focus enabled (focus_output_stack s output)
          ≡ (if enabled output then some output else topmost enabled (without output s.stack)))
        × (current_output_focus enabled (add_to_end s output)
            ≡ or_else
                (topmost enabled (without output s.stack))
                (if enabled output then some output else none))
        × (current_output_focus enabled s ≢ some output
            → current_output_focus enabled (remove_output_focus s output)
              ≡ current_output_focus enabled s)
  unfolding focus_output_stack add_to_end remove_output_focus
  current_output_focus_lem s output = (
    rw
        (
          current_output-topmost (focus_output_stack s output),
          topmost-append enabled (without output s.stack) (output ∷ []),
        )
        (ground arith),
    current_output-topmost (add_to_end s output),
    λ other. ground (
      arith,
      current_output-topmost s,
      current_output-topmost (remove_output_focus s output),
      topmost-without enabled output s.stack,
    ),
  )
