-- ===== src/Focus/Windows.antt =====
-- src/focus.rs: what the stack of windows promises: the newest focus wins, and a window that is
-- added in the background leaves the focus alone.
use pinnacle.Common.{
  ℕ, ◌-◌, ◌≡◌, refl, ◌≢◌, Bool, true, false, not, ◌&&◌, ◌||◌, List, [], ◌∷◌, ◌++◌, none, some,
  arith, length, elem, without, elem-append, elem-without, elem-without_self, without-absent,
  Distinct, Distinct-retain, Distinct-append_one, Distinct-insert_at, elem-insert_at, ◌↔◌, ◌==◌,
  if◌then◌else◌,
}
use pinnacle.Focus.Topmost.{
  topmost, find-reverse, topmost-append, topmost-without, topmost-some, insert_below_top,
}
use pinnacle.Focus.Stack.{
  WindowKeyboardFocusStack, set_focus, add_focus, unset_focus, remove_focus, current_focus,
}

-- One call of a method that changes the stack.
pub data FocusOp : Type 0 where
  sets adds removes : ℕ → FocusOp
  unsets : FocusOp

pub apply_focus : FocusOp → WindowKeyboardFocusStack → WindowKeyboardFocusStack
unfolding set_focus add_focus remove_focus unset_focus
apply_focus (sets w) s = set_focus s w
apply_focus (adds w) s = add_focus s w
apply_focus (removes w) s = remove_focus s w
apply_focus unsets s = unset_focus s

pub members_after : FocusOp → ℕ → Bool → Bool
members_after (sets w) a before = (w == a) || before
members_after (adds w) a before = (w == a) || before
members_after (removes w) a before = not (w == a) && before
members_after unsets a before = before

-- Every call keeps the stack free of duplicates, and puts in or takes out the one window that it
-- names.
pub apply_focus-Distinct :
    (op : FocusOp) (s : WindowKeyboardFocusStack)
    → Distinct s.stack
    → Distinct (apply_focus op s).stack
      × ((a : ℕ) → elem a (apply_focus op s).stack ≡ members_after op a (elem a s.stack))
unfolding apply_focus members_after
apply_focus-Distinct (sets w) s d = (
  Distinct-append_one (without w s.stack) w (Distinct-retain _ s.stack d)
      (elem-without_self w s.stack),
  λ a. ground (arith, elem-append a (without w s.stack) (w ∷ []), elem-without w a s.stack),
)
apply_focus-Distinct (adds w) s d = (
  Distinct-insert_at _ w (without w s.stack) (Distinct-retain _ s.stack d)
      (elem-without_self w s.stack),
  λ a. ground (
    arith,
    elem-insert_at a (length (without w s.stack) - 1) w (without w s.stack),
    elem-without w a s.stack,
  ),
)
apply_focus-Distinct (removes w) s d =
    (Distinct-retain _ s.stack d, λ a. ground (arith, elem-without w a s.stack))
apply_focus-Distinct unsets s d = (d, λ a. refl)

module _ (active override : ℕ → Bool) where
  abbrev eligible : ℕ → Bool
  eligible w = active w && not (override w)

  current_focus-topmost :
      (s : WindowKeyboardFocusStack)
      → current_focus active override s ≡ (if s.focused then topmost eligible s.stack else none)
  unfolding current_focus
  current_focus-topmost s = ground (arith, find-reverse active (λ w. not (override w)) s.stack)

  -- A window that can take the focus has it after `set_focus`; one that cannot (no active tag, or
  -- override-redirect) leaves it to the topmost of the other windows that can.
  pub current_focus-set_focus :
      (s : WindowKeyboardFocusStack) (w : ℕ)
      → current_focus active override (set_focus s w)
        ≡ (if eligible w then some w else topmost eligible (without w s.stack))
  unfolding set_focus
  current_focus-set_focus s w =
      rw
        (
          current_focus-topmost (set_focus s w),
          topmost-append eligible (without w s.stack) (w ∷ []),
        )
        (ground arith)

  focus_before :
      (s : WindowKeyboardFocusStack) (rest : List ℕ) (top : ℕ)
      → s.focused ≡ true
      → s.stack ≡ rest ++ top ∷ []
      → current_focus active override s ≡ (if eligible top then some top else topmost eligible rest)
  focus_before s rest top f e =
      rw (current_focus-topmost s, f, e, topmost-append eligible rest (top ∷ [])) (ground arith)

  stack_after :
      (s : WindowKeyboardFocusStack) (w : ℕ) (rest : List ℕ) (top : ℕ)
      → s.stack ≡ rest ++ top ∷ []
      → elem w s.stack ≡ false
      → (add_focus s w).stack ≡ rest ++ w ∷ top ∷ []
  unfolding add_focus
  stack_after s w rest top e fresh =
      rw (without-absent w s.stack fresh, e) (insert_below_top rest top w)

  focus_after :
      (s : WindowKeyboardFocusStack) (w : ℕ) (rest : List ℕ) (top : ℕ)
      → s.focused ≡ true
      → s.stack ≡ rest ++ top ∷ []
      → elem w s.stack ≡ false
      → current_focus active override (add_focus s w)
        ≡ (if eligible top then some top else if eligible w then some w else topmost eligible rest)
  focus_after s w rest top f e fresh =
      rw
        (
          current_focus-topmost (add_focus s w),
          stack_after s w rest top e fresh,
          topmost-append eligible rest (w ∷ top ∷ []),
        )
        (unfold add_focus in ground arith)

  -- A window that is added in the background leaves the focus where it is exactly when the top of
  -- the stack can take the focus itself. (The window is new to the stack and can take the focus.)
  pub add_focus_keeps_iff :
      (s : WindowKeyboardFocusStack) (w : ℕ) (rest : List ℕ) (top : ℕ)
      → s.focused ≡ true
      → s.stack ≡ rest ++ top ∷ []
      → elem w s.stack ≡ false
      → eligible w ≡ true
      → (current_focus active override (add_focus s w) ≡ current_focus active override s)
        ↔ (eligible top ≡ true)
  add_focus_keeps_iff s w rest top f e fresh can =
      let before = focus_before s rest top f e in
      let after = focus_after s w rest top f e fresh in
      let absent = elem-append w rest (top ∷ []) in
      (
        λ same. ground (arith, before, after, absent, e, topmost-some eligible rest w),
        λ top_can. ground (arith, before, after),
      )

  -- Taking another window off the stack leaves the focus alone, no window has the focus once it was
  -- taken off, and none has it after `unset_focus`.
  pub current_focus-remove_focus :
      (s : WindowKeyboardFocusStack) (w : ℕ)
      → (current_focus active override s ≢ some w
          → current_focus active override (remove_focus s w) ≡ current_focus active override s)
        × (current_focus active override (remove_focus s w) ≢ some w)
        × (current_focus active override (unset_focus s) ≡ none)
  unfolding remove_focus unset_focus
  current_focus-remove_focus s w =
      let before = current_focus-topmost s in
      let after = current_focus-topmost (remove_focus s w) in
      (
        λ other. ground (arith, before, after, topmost-without eligible w s.stack),
        λ same. ground (
          arith,
          after,
          elem-without_self w s.stack,
          topmost-some eligible (without w s.stack) w,
        ),
        current_focus-topmost (unset_focus s),
      )
