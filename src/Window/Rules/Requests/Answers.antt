-- ===== src/Window/Rules/Requests/Answers.antt =====
-- src/window/rules.rs: whom a request is sent to, and when a window's rules are complete.
use mathlib.Core.List.{append-nil, append_assoc}
use pinnacle.Common.{
  ==_refl, Bool-cases, inl, inr, ℕ, ◌+◌, ◌%◌, ◌≡◌, refl, ◌∙◌, ap, sym, Bool, true, false, not, ◌&&◌,
  List, [], ◌∷◌, ◌++◌, arith, all, retain, map, elem, leb, if◌then◌else◌,
}
use pinnacle.State.{Pinnacle, Effect, RuleSender, PendingWindowRuleRequest, rule_request, emit}
use pinnacle.Window.Rules.Requests.{
  rules_finished, is_empty, is_pending, send_requests, new_request, is_done, finished_windows,
}

abbrev pub is_open : RuleSender → Bool
is_open s = s.open_end

-- The clients that are still there, and the counters that they answer by.
abbrev pub open_senders : Pinnacle → List RuleSender
open_senders p = retain is_open p.window_rule_state.senders

abbrev pub counters_of : List RuleSender → List ℕ
counters_of = map (λ s. s.counter)

abbrev pub requests : ℕ → ℕ → List RuleSender → List Effect
requests r id = map (λ s. rule_request s.channel r id)

send_requests-eq :
    (r id : ℕ) (ss : List RuleSender) (p : Pinnacle)
    → send_requests r id ss p ≡ (
      retain is_open ss,
      counters_of (retain is_open ss),
      record p { effects = p.effects ++ requests r id (retain is_open ss) },
    )
unfolding send_requests
send_requests-eq r id [] p = λ i. ([], [], record p { effects = sym (append-nil p.effects) i })
send_requests-eq r id (s ∷ ss) p = elim (Bool-cases s.open_end) [
  | inl e ↦ simp e (
      rw (send_requests-eq r id ss (emit (rule_request s.channel r id) p)) (λ i. (
        s ∷ retain is_open ss,
        s.counter ∷ counters_of (retain is_open ss),
        record p {
          effects =
              append_assoc p.effects (rule_request s.channel r id ∷ [])
                (requests r id (retain is_open ss)) i;
        },
      )))
  | inr e ↦ simp e (rw (send_requests-eq r id ss p) refl)
]

-- A new request, for a window whose rules are not complete and for which none is under way, is sent
-- once to every client that is still there and to no other; the others are forgotten; the window
-- waits for exactly those clients, under a number that is then used up; and the call says whether
-- there was any.
pub new_request_lem :
    (w : ℕ) (p : Pinnacle)
    → rules_finished (p.window_states w).surface ≡ false
    → is_pending w p.window_rule_state.pending_windows ≡ false
    → let (q, sent) = new_request w p in
      let r = p.window_rule_state.current_request_id in
      (q.effects ≡ p.effects ++ requests r (p.window_states w).id (open_senders p))
      × (q.window_rule_state.senders ≡ open_senders p)
      × (q.window_rule_state.current_request_id ≡ (r + 1) % 4294967296)
      × (sent ≡ not (is_empty (counters_of (open_senders p))))
      × (q.window_rule_state.pending_windows ≡ (
          if sent
          then p.window_rule_state.pending_windows
            ++ (w, record { request_id = r; waiting_on = counters_of (open_senders p) }) ∷ []
          else p.window_rule_state.pending_windows))
unfolding new_request
new_request_lem w p f n = rw (send_requests-eq, f, n) (refl, refl, refl, refl, ground arith)

pub new_request-keeps :
    (w : ℕ) (p : Pinnacle)
    → rules_finished (p.window_states w).surface ≡ false
    → is_pending w p.window_rule_state.pending_windows ≡ false
    → let q = (new_request w p).0 in
      (q.unmapped_windows ≡ p.unmapped_windows) × (q.window_states ≡ p.window_states)
unfolding new_request
new_request-keeps w p f n = rw (send_requests-eq, f, n) (refl, refl)

all-counters :
    (r : ℕ) (c : ℕ → ℕ) (ss : List RuleSender)
    → all (λ k. leb r (c k)) (counters_of ss) ≡ all (λ s. leb r (c s.counter)) ss
all-counters r c [] = refl
all-counters r c (s ∷ ss) = ap (λ b. leb r (c s.counter) && b) (all-counters r c ss)

elem-finished_last :
    (c : ℕ → ℕ) (w : ℕ) (q : PendingWindowRuleRequest) (pend : List (ℕ × PendingWindowRuleRequest))
    → is_pending w pend ≡ false
    → elem w (map (λ e. e.0) (retain (λ e. is_done c e.1) (pend ++ (w, q) ∷ []))) ≡ is_done c q
elem-finished_last c w q [] h = ground (arith, ==_refl w)
elem-finished_last c w q (e ∷ es) h = ground (arith, elem-finished_last c w q es)

-- Once a window's rules have been asked for, whatever the clients' counters say later, the window is
-- among the finished ones exactly when every client that was there to be asked has answered up to
-- the request's number. It is assumed that the window's rules were not complete, that no request was
-- under way for it, and that some client was there.
pub finished_iff_answered :
    (w : ℕ) (p : Pinnacle) (c : ℕ → ℕ)
    → rules_finished (p.window_states w).surface ≡ false
    → is_pending w p.window_rule_state.pending_windows ≡ false
    → is_empty (counters_of (open_senders p)) ≡ false
    → elem w (finished_windows (record (new_request w p).0 { rule_counters = c })).1
      ≡ all (λ s. leb p.window_rule_state.current_request_id (c s.counter)) (open_senders p)
unfolding new_request finished_windows is_done
finished_iff_answered w p c f n h =
    rw (send_requests-eq, f, n, h)
      (elem-finished_last c w
          (record {
            request_id = p.window_rule_state.current_request_id;
            waiting_on = counters_of (open_senders p);
          })
          p.window_rule_state.pending_windows n
        ∙ all-counters p.window_rule_state.current_request_id c (open_senders p))

all-leb_zero : (c : ℕ → ℕ) (ss : List RuleSender) → all (λ s. leb 0 (c s.counter)) ss ≡ true
all-leb_zero c [] = refl
all-leb_zero c (s ∷ ss) = ground (arith, all-leb_zero c ss)

-- The very first request, whose number is 0, counts as answered before anyone has answered it: its
-- window is among the finished ones whatever the clients' counters say. The assumptions are those
-- above: the window's rules were not complete, no request was under way for it, and some client was
-- there.
pub first_request_needs_no_answer :
    (w : ℕ) (p : Pinnacle) (c : ℕ → ℕ)
    → rules_finished (p.window_states w).surface ≡ false
    → is_pending w p.window_rule_state.pending_windows ≡ false
    → is_empty (counters_of (open_senders p)) ≡ false
    → p.window_rule_state.current_request_id ≡ 0
    → elem w (finished_windows (record (new_request w p).0 { rule_counters = c })).1 ≡ true
first_request_needs_no_answer w p c f n h z =
    finished_iff_answered w p c f n h
    ∙ ap (λ r. all (λ s. leb r (c s.counter)) (open_senders p)) z
    ∙ all-leb_zero c (open_senders p)
