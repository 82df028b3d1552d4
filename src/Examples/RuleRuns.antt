-- ===== src/Examples/RuleRuns.antt =====
-- src/window/rules.rs and the answers of src/api/window/v1.rs on the small compositor.
use pinnacle.Common.{◌≡◌, refl, true, false, [], ◌∷◌, none, some, elem}
use pinnacle.State.{
  Pinnacle, Unmapped, ClientRequests, waiting_for_tags, waiting_for_rules, rule_request,
}
use pinnacle.Examples.World.{list_sets, sizes, world, rule_state}
use pinnacle.Window.Rules.Requests.{new_request, finished_windows, is_done}
use pinnacle.Window.Rules.Requests.Answers.{
  new_request_lem, finished_iff_answered, first_request_needs_no_answer,
}
use pinnacle.Window.Rules.Apply.{request_window_rules, no_rules}
use pinnacle.Window.Rules.Finished.{on_finished, push_back}
use pinnacle.Window.Rules.Finished.Safety.{RulesReady, on_finished_lem}
use pinnacle.Window.Rules.Finished.Asking.{request_window_rules_lem}

new_request_lem_example : (new_request 2 world).0.effects ≡ rule_request 7 0 22 ∷ []
new_request_lem_example = (new_request_lem 2 world refl refl).0

-- A later request, number 3, of which the client has answered number 2.
abbrev later : Pinnacle
later = record world { window_rule_state = record rule_state { current_request_id = 3 } }

finished_iff_answered_example :
    elem 2 (finished_windows (record (new_request 2 later).0 { rule_counters = λ c. 2 })).1 ≡ false
finished_iff_answered_example = finished_iff_answered 2 later (λ c. 2) refl refl refl

first_request_needs_no_answer_example :
    elem 2 (finished_windows (record (new_request 2 world).0 { rule_counters = λ c. 0 })).1 ≡ true
first_request_needs_no_answer_example =
    first_request_needs_no_answer 2 world (λ c. 0) refl refl refl refl

abbrev no_requests : ClientRequests
no_requests = record { layout_mode = none; decoration_mode = none }

abbrev waiting : Unmapped
waiting = record { window = 3; state = waiting_for_rules no_rules no_requests }

abbrev one_waiting : Pinnacle
one_waiting = record world {
  unmapped_windows = waiting ∷ [];
  window_rule_state = record rule_state {
    pending_windows = (3, record { request_id = 4; waiting_on = 5 ∷ [] }) ∷ [];
    current_request_id = 5;
  };
}

one_waiting-RulesReady : RulesReady one_waiting
one_waiting-RulesReady = record { distinct = (refl, tt); ready = refl }

on_finished_lem_example :
    (q : Pinnacle) × (on_finished 5 4 one_waiting ≡ some q)
    × RulesReady q
    × (q.window_rule_state.pending_windows ≡ [])
unfolding is_done
on_finished_lem_example = on_finished_lem 5 4 one_waiting one_waiting-RulesReady

abbrev fresh : Unmapped
fresh = record { window = 4; state = waiting_for_tags no_requests }

request_window_rules_lem_example :
    (q : Pinnacle) × (v : Unmapped) × (request_window_rules fresh one_waiting ≡ some (q, v))
    × RulesReady (push_back (q, v))
request_window_rules_lem_example =
    request_window_rules_lem fresh no_requests one_waiting refl refl refl refl
      one_waiting-RulesReady
