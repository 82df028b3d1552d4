-- ===== src/Window/Queries.antt =====
-- src/window.rs: what a window says of its tags and its output.
use pinnacle.Common.{ℕ, Bool, true, false, List, [], ◌∷◌, Option, none, some, any, first?}
use pinnacle.Deps.{IndexSet}
use pinnacle.State.{Pinnacle, modify_window}
use pinnacle.Window.State.{UnderlyingSurface, wayland, x11}
use pinnacle.Tag.{tag_output}
use pinnacle.Output.{focused_tags, extend}

-- `tags.iter().any(|tag| tag.active())`.
unfoldable pub is_on_active_tag : ℕ → Pinnacle → Bool
is_on_active_tag w p = any (λ t. (p.tag_cells t).active) (p.window_states w).tags

abbrev surface_override_redirect : UnderlyingSurface → Bool
surface_override_redirect (wayland t) = false
surface_override_redirect (x11 s) = s.override_redirect

abbrev surface_is_x11 : UnderlyingSurface → Bool
surface_is_x11 (wayland t) = false
surface_is_x11 (x11 s) = true

unfoldable pub is_x11_override_redirect : ℕ → Pinnacle → Bool
is_x11_override_redirect w p = surface_override_redirect (p.window_states w).surface

unfoldable pub is_x11 : ℕ → Pinnacle → Bool
is_x11 w p = surface_is_x11 (p.window_states w).surface

-- The tags that a window takes on an output: the focused ones, or else the first.
abbrev pub one_tag : Option ℕ → List ℕ
one_tag none = []
one_tag (some t) = t ∷ []

abbrev pub or_first : List ℕ → List ℕ → List ℕ
or_first [] tags = one_tag (first? tags)
or_first (t ∷ focused) tags = t ∷ focused

module _ ⦃ix : IndexSet⦄ where
  -- `WindowElement::output`: the output of its first tag.
  unfoldable pub window_output : ℕ → Pinnacle → Option ℕ
  unfolding tag_output
  window_output w p = elim (first? (p.window_states w).tags) [
    | none ↦ none
    | some tag ↦ tag_output tag p
  ]

  unfoldable pub set_tags_to_output : ℕ → ℕ → Pinnacle → Pinnacle
  unfolding focused_tags extend
  set_tags_to_output w output p =
      modify_window w
        (λ s. record s {
          tags = or_first (extend [] (focused_tags output p)) (p.output_states output).tags;
        })
        p
