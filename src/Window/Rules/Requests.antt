-- ===== src/Window/Rules/Requests.antt =====
-- src/window/rules.rs: `WindowRuleState`, the requests that are sent out and what is still awaited.
pub mod Answers
use pinnacle.Common.{
  ℕ, ◌+◌, ◌%◌, Bool, true, false, not, List, [], ◌∷◌, ◌++◌, ◌||◌, retain, all, leb, ◌==◌, map,
  if◌then◌else◌,
}
use pinnacle.State.{
  Pinnacle, RuleSender, PendingWindowRuleRequest, WindowRuleState, rule_request, emit,
}
use pinnacle.Window.State.{UnderlyingSurface, wayland, x11}

abbrev pub rules_finished : UnderlyingSurface → Bool
rules_finished (wayland t) = t.initial_configure_sent
rules_finished (x11 s) = s.mapped

-- `senders.retain(…)`: each open channel is sent the request, and its counter is waited on; a
-- closed one is dropped.
unfoldable pub send_requests :
    ℕ → ℕ → List RuleSender → Pinnacle → List RuleSender × List ℕ × Pinnacle
send_requests request_id window_id [] p = ([], [], p)
send_requests request_id window_id (s ∷ ss) p =
    let (kept, waiting, q) =
      send_requests request_id window_id ss
        (if s.open_end then emit (rule_request s.channel request_id window_id) p else p) in
    if s.open_end then (s ∷ kept, s.counter ∷ waiting, q) else (kept, waiting, q)

abbrev pub is_empty : List ℕ → Bool
is_empty [] = true
is_empty (x ∷ xs) = false

abbrev pub is_pending : ℕ → List (ℕ × PendingWindowRuleRequest) → Bool
is_pending w [] = false
is_pending w ((v, r) ∷ rest) = (v == w) || is_pending w rest

-- The state with a request's number used up and the closed senders dropped, and with what is
-- waited on, if anything is.
abbrev after_sending : WindowRuleState → ℕ → List RuleSender → List ℕ → WindowRuleState
after_sending st w kept waiting = record {
  pending_windows =
      if is_empty waiting
      then st.pending_windows
      else st.pending_windows
        ++ (w, record { request_id = st.current_request_id; waiting_on = waiting }) ∷ [];
  senders = kept;
  current_request_id = (st.current_request_id + 1) % 4294967296;
}

-- `WindowRuleState::new_request`: also whether a request is under way, or none is needed any more.
unfoldable pub new_request : ℕ → Pinnacle → Pinnacle × Bool
unfolding send_requests
new_request w p =
    let st = p.window_rule_state in
    let (kept, waiting, q) =
      send_requests st.current_request_id (p.window_states w).id st.senders p in
    if rules_finished (p.window_states w).surface
    then (p, true)
    else if is_pending w st.pending_windows
    then (p, true)
    else (record q { window_rule_state = after_sending st w kept waiting }, not (is_empty waiting))

unfoldable pub new_sender : RuleSender → Pinnacle → Pinnacle
new_sender s p =
    let st = p.window_rule_state in
    record p { window_rule_state = record st { senders = st.senders ++ s ∷ [] } }

-- `PendingWindowRuleRequest::is_done`.
unfoldable pub is_done : (ℕ → ℕ) → PendingWindowRuleRequest → Bool
is_done counters r = all (λ c. leb r.request_id (counters c)) r.waiting_on

-- `finished_windows`: the windows whose requests are answered are taken out and returned.
unfoldable pub finished_windows : Pinnacle → Pinnacle × List ℕ
unfolding is_done
finished_windows p =
    let st = p.window_rule_state in
    (
      record p {
        window_rule_state = record st {
          pending_windows = retain (λ e. not (is_done p.rule_counters e.1)) st.pending_windows;
        };
      },
      map (λ e. e.0) (retain (λ e. is_done p.rule_counters e.1) st.pending_windows),
    )
