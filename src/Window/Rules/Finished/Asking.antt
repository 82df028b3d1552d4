-- ===== src/Window/Rules/Finished/Asking.antt =====
-- src/window/rules.rs: asking for the rules of a window keeps what makes answering safe.
use pinnacle.Common.{
  inl, inr, Bool-cases, ℕ, ◌≡◌, refl, ◌∙◌, ap, subst, sym, Bool, true, false, not, ◌||◌, List, [],
  ◌∷◌, ◌++◌, some, arith, all, elem, Distinct, elem-append, if◌then◌else◌, ◌==◌,
  Distinct-append_one,
}
use pinnacle.Deps.{IndexSet, Smithay}
use pinnacle.State.{
  Pinnacle, Unmapped, waiting_for_tags, waiting_for_rules, post_initial_configure,
  PendingWindowRuleRequest, WindowRuleState, ClientRequests,
}
use pinnacle.Window.State.{WindowElementState, UnderlyingSurface, wayland, x11}
use pinnacle.Window.Rules.Requests.{is_pending, rules_finished, new_request}
use pinnacle.Window.Rules.Requests.Answers.{
  new_request_lem, new_request-keeps, counters_of, open_senders,
}
use pinnacle.Window.Rules.Apply.{request_window_rules, no_rules}
use pinnacle.Window.Rules.Apply.Frame.{is_sent, apply_rules-total}
use pinnacle.Window.Rules.Finished.{push_back}
use pinnacle.Window.Rules.Finished.Queue.{keys}
use pinnacle.Window.Rules.Finished.Safety.{waits_for_rules, can_finish, RulesReady}

is_sent_of_finished : (s : UnderlyingSurface) → rules_finished s ≡ false → is_sent s ≡ false
is_sent_of_finished (wayland t) h = h
is_sent_of_finished (x11 x) h = refl

is_pending-elem :
    (w : ℕ) (pend : List (ℕ × PendingWindowRuleRequest)) → is_pending w pend ≡ elem w (keys pend)
is_pending-elem w [] = refl
is_pending-elem w (e ∷ es) = ap (λ b. (e.0 == w) || b) (is_pending-elem w es)

keys-append_one :
    (w : ℕ) (r : PendingWindowRuleRequest) (pend : List (ℕ × PendingWindowRuleRequest))
    → keys (pend ++ (w, r) ∷ []) ≡ keys pend ++ w ∷ []
keys-append_one w r [] = refl
keys-append_one w r (e ∷ es) = ap (λ l. e.0 ∷ l) (keys-append_one w r es)

-- No entry of the list is of that window.
abbrev pub is_new : ℕ → List Unmapped → Bool
is_new w = all (λ u. not (u.window == w))

-- An unmapped window is added that can be finished; the other windows are as they were.
CanFinish-push :
    (ks ks' : List ℕ) (w : ℕ) (p q : Pinnacle) (v : Unmapped) (us : List Unmapped)
    → is_new w us ≡ true
    → all (can_finish ks p) us ≡ true
    → ((x : ℕ) → (x == w) ≡ false → q.window_states x ≡ p.window_states x)
    → ((x : ℕ) → (x == w) ≡ false → elem x ks' ≡ elem x ks)
    → can_finish ks' q v ≡ true
    → all (can_finish ks' q) (us ++ v ∷ []) ≡ true
CanFinish-push ks ks' w p q v [] f c o k h = ground arith
CanFinish-push ks ks' w p q v (u ∷ us) f c o k h = ground (
  arith,
  o u.window,
  k u.window,
  CanFinish-push ks ks' w p q v us (ground arith) (ground arith) o k h,
)

RulesReady-push :
    (w : ℕ) (p q : Pinnacle) (v : Unmapped)
    → q.unmapped_windows ≡ p.unmapped_windows
    → ((x : ℕ) → (x == w) ≡ false → q.window_states x ≡ p.window_states x)
    → let ks = keys p.window_rule_state.pending_windows in
      let ks' = keys q.window_rule_state.pending_windows in
      is_new w p.unmapped_windows ≡ true
      → RulesReady p
      → ((x : ℕ) → (x == w) ≡ false → elem x ks' ≡ elem x ks)
      → Distinct ks'
      → can_finish ks' q v ≡ true
      → RulesReady (push_back (q, v))
RulesReady-push w p q v m o f i k d h =
    let ks = keys p.window_rule_state.pending_windows in
    let ks' = keys q.window_rule_state.pending_windows in
    record {
      distinct = d;
      ready =
          ap (λ us. all (can_finish ks' q) (us ++ v ∷ [])) m
          ∙ CanFinish-push ks ks' w p q v p.unmapped_windows f i.ready o k h;
    }

-- The windows that wait, once it is known whether anyone was asked; the window with its request added, and the window whose rules were applied at once.
abbrev if_asked :
    ℕ → Pinnacle → PendingWindowRuleRequest → Bool → List (ℕ × PendingWindowRuleRequest)
if_asked w p r b =
    if b
    then p.window_rule_state.pending_windows ++ (w, r) ∷ []
    else p.window_rule_state.pending_windows

push-asked :
    (w : ℕ) (p q : Pinnacle) (v : Unmapped) (r : PendingWindowRuleRequest)
    → q.unmapped_windows ≡ p.unmapped_windows
    → q.window_states ≡ p.window_states
    → q.window_rule_state.pending_windows ≡ p.window_rule_state.pending_windows ++ (w, r) ∷ []
    → is_pending w p.window_rule_state.pending_windows ≡ false
    → is_new w p.unmapped_windows ≡ true
    → RulesReady p
    → waits_for_rules v.state ≡ true
    → is_sent (p.window_states v.window).surface ≡ false
    → RulesReady (push_back (q, v))
push-asked w p q v r m o e n f i a s =
    let pend = p.window_rule_state.pending_windows in
    let ks = ap keys e ∙ keys-append_one w r pend in
    RulesReady-push w p q v m (λ x h. ap (λ (g : ℕ → WindowElementState). g x) o) f i
      (λ x h. ap (elem x) ks ∙ ground (arith, h, elem-append x (keys pend) (w ∷ [])))
      (subst Distinct (sym ks)
        (Distinct-append_one (keys pend) w i.distinct (sym (is_pending-elem w pend) ∙ n)))
      (ground (arith, a, s, ap (λ (g : ℕ → WindowElementState). is_sent (g v.window).surface) o))

push-applied :
    (w : ℕ) (p q : Pinnacle) (v : Unmapped)
    → q.unmapped_windows ≡ p.unmapped_windows
    → ((x : ℕ) → (x == w) ≡ false → q.window_states x ≡ p.window_states x)
    → q.window_rule_state.pending_windows ≡ p.window_rule_state.pending_windows
    → is_pending w p.window_rule_state.pending_windows ≡ false
    → is_new w p.unmapped_windows ≡ true
    → RulesReady p
    → v.window ≡ w
    → RulesReady (push_back (q, v))
push-applied w p q v m o e n f i a =
    let pend = p.window_rule_state.pending_windows in
    RulesReady-push w p q v m o f i (λ x h. ap (λ l. elem x (keys l)) e)
      (subst (λ l. Distinct (keys l)) (sym e) i.distinct)
      (ground (
        arith,
        ap (λ l. elem v.window (keys l)) e,
        ap (λ x. elem x (keys pend)) a,
        is_pending-elem w pend,
      ))

module _ ⦃ix : IndexSet⦄ ⦃smithay : Smithay⦄ where
  -- Asking for the rules of a window never panics, and once the window is back in the list `RulesReady`
  -- holds again, if it held before. It is assumed that the window waits for tags, that its rules are
  -- not complete and no request is under way for it, and that it is not in the list already.
  pub request_window_rules_lem :
      (u : Unmapped) (c : ClientRequests) (p : Pinnacle)
      → u.state ≡ waiting_for_tags c
      → rules_finished (p.window_states u.window).surface ≡ false
      → is_pending u.window p.window_rule_state.pending_windows ≡ false
      → is_new u.window p.unmapped_windows ≡ true
      → RulesReady p
      → (q : Pinnacle) × (v : Unmapped) × (request_window_rules u p ≡ some (q, v))
        × RulesReady (push_back (q, v))
  unfolding request_window_rules
  request_window_rules_lem u c p e f n fresh i =
      let v : Unmapped = record u { state = waiting_for_rules no_rules c } in
      let asked : PendingWindowRuleRequest = record {
        request_id = p.window_rule_state.current_request_id;
        waiting_on = counters_of (open_senders p);
      } in
      elim (Bool-cases (new_request u.window p).1) [
        | inl sent ↦ (
          (new_request u.window p).0,
          v,
          ground (arith, e, sent),
          let keeps = new_request-keeps u.window p f n in
              push-asked u.window p (new_request u.window p).0 v asked keeps.0 keeps.1
                ((new_request_lem u.window p f n).4 ∙ ap (λ b. if_asked u.window p asked b) sent) n
                fresh i refl (is_sent_of_finished (p.window_states u.window).surface f),
        )
        | inr sent ↦
            let (q, a, b, g, k) = apply_rules-total v no_rules c (new_request u.window p).0 (
              ap (λ (s : ℕ → WindowElementState). is_sent (s u.window).surface)
                (new_request-keeps u.window p f n).1
              ∙ is_sent_of_finished (p.window_states u.window).surface f) in
            (
              q,
              record u { state = post_initial_configure a b },
              ground (arith, e, sent, g),
              let keeps = new_request-keeps u.window p f n in
                  push-applied u.window p q (record u { state = post_initial_configure a b })
                    (k.unmapped ∙ keeps.0)
                    (λ x h. k.others x h ∙ ap (λ (g : ℕ → WindowElementState). g x) keeps.1)
                    (ap (λ (st : WindowRuleState). st.pending_windows) k.requests
                      ∙ (new_request_lem u.window p f n).4
                      ∙ ap (λ b. if_asked u.window p asked b) sent)
                    n fresh i refl,
            )
      ]
