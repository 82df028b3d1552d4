-- ===== src/Window/Rules/Finished.antt =====
-- src/api/window/v1.rs: the answer of a client with window rules, which may finish the rules of some
pub mod Queue
pub mod Asking
pub mod Safety
-- unmapped windows. `none` is a panic.
use pinnacle.Common.{
  ℕ, zero, suc, Bool, true, false, List, [], ◌∷◌, ◌++◌, Option, none, some, get_elem?, last?, ◌==◌,
}
use pinnacle.Deps.{IndexSet, Smithay}
use pinnacle.State.{Pinnacle, Unmapped, update}
use pinnacle.Window.Rules.Requests.{finished_windows}
use pinnacle.Window.Rules.Apply.{apply_window_rules_and_send_initial_configure}

-- `iter().position(…)`.
abbrev pub position_of : ℕ → List Unmapped → Option ℕ
position_of w [] = none
position_of w (u ∷ us) =
    let rest = position_of w us in
    elim (u.window == w) [
      | true ↦ some 0
      | false ↦ elim rest [ none ↦ none | some i ↦ some (suc i) ]
    ]

-- `Vec::swap_remove`: the last element takes the place of the one removed.
abbrev pub without_last {ℓ} : {A : Type ℓ} → List A → List A
without_last [] = []
without_last (x ∷ []) = []
without_last (x ∷ y ∷ xs) = x ∷ without_last (y ∷ xs)

abbrev pub replace_at {ℓ} : {A : Type ℓ} → ℕ → A → List A → List A
replace_at i x [] = []
replace_at zero x (y ∷ ys) = x ∷ ys
replace_at (suc i) x (y ∷ ys) = y ∷ replace_at i x ys

abbrev pub swap_remove {ℓ} : {A : Type ℓ} → ℕ → List A → List A
swap_remove i xs = elim (last? xs) [ none ↦ [] | some x ↦ without_last (replace_at i x xs) ]

abbrev pub push_back : Pinnacle × Unmapped → Pinnacle
push_back (q, v) = record q { unmapped_windows = q.unmapped_windows ++ v ∷ [] }

module _ ⦃ix : IndexSet⦄ ⦃smithay : Smithay⦄ where
  -- One round of the loop over the finished windows.
  unfoldable pub finish_window : ℕ → Pinnacle → Option Pinnacle
  unfolding apply_window_rules_and_send_initial_configure
  finish_window w p = elim (position_of w p.unmapped_windows) [
    | none ↦ some p
    | some i ↦ elim (get_elem? p.unmapped_windows i) [
      | none ↦ none
      | some u ↦
          elim (apply_window_rules_and_send_initial_configure u
            (record p { unmapped_windows = swap_remove i p.unmapped_windows })) [
              | none ↦ none
              | some r ↦ some (push_back r)
            ]
    ]
  ]

  unfoldable pub finish_windows : List ℕ → Pinnacle → Option Pinnacle
  unfolding finish_window
  finish_windows [] p = some p
  finish_windows (w ∷ ws) p = elim (finish_window w p) [
    | none ↦ none
    | some q ↦ finish_windows ws q
  ]

  -- `Request::Finished`: the client's counter takes the number that it answers.
  unfoldable pub on_finished : (counter id : ℕ) → Pinnacle → Option Pinnacle
  unfolding finished_windows finish_windows
  on_finished counter id p =
      let (q, finished) =
        finished_windows (record p { rule_counters = update p.rule_counters counter id }) in
      finish_windows finished q
