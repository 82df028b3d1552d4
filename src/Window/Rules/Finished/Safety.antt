-- ===== src/Window/Rules/Finished/Safety.antt =====
-- src/window/rules.rs and src/api/window/v1.rs: asking for rules and answering never panic, as long as
-- every window with a request under way is unmapped, waits for its rules and was not configured.
use pinnacle.Common.{
  inl, Bool-cases, inr, Option-cases, ℕ, ◌≡◌, refl, ◌∙◌, ap, subst, sym, Bool, true, false, not,
  ◌&&◌, ◌||◌, List, [], ◌∷◌, ◌++◌, some, arith, all, elem, Distinct, retain, ◌==◌,
}
use pinnacle.Deps.{IndexSet, Smithay}
use pinnacle.State.{
  WindowRuleState, Pinnacle, Unmapped, UnmappedState, waiting_for_tags, waiting_for_rules,
  post_initial_configure, update, PendingWindowRuleRequest,
}
use pinnacle.Window.Rules.Requests.{is_done}
use pinnacle.Window.Rules.Apply.{apply_window_rules_and_send_initial_configure}
use pinnacle.Window.Rules.Apply.Frame.{is_sent, KeepsOthers, apply_rules-total}
use pinnacle.Window.Rules.Finished.{
  position_of, swap_remove, push_back, finish_window, finish_windows, on_finished,
}
use pinnacle.Window.Rules.Finished.Queue.{
  Distinct-rest, position_of-get, all-get, all-swap_remove, all-append, all_mono, keys,
  elem-keys_split, Distinct-keys_split,
}

abbrev pub waits_for_rules : UnmappedState → Bool
waits_for_rules (waiting_for_tags c) = false
waits_for_rules (waiting_for_rules r c) = true
waits_for_rules (post_initial_configure a b) = false

-- The rules of the unmapped window can be applied, if it is one of the windows.
abbrev pub can_finish : List ℕ → Pinnacle → Unmapped → Bool
can_finish ws p u =
    not (elem u.window ws)
    || (waits_for_rules u.state && not (is_sent (p.window_states u.window).surface))

abbrev pub CanFinish : List ℕ → Pinnacle → Type 0
CanFinish ws p = all (can_finish ws p) p.unmapped_windows ≡ true

-- Every window with a request under way has one request, and its rules can be applied.
pub record RulesReady (p : Pinnacle) : Type 0 where
  pub distinct : Distinct (keys p.window_rule_state.pending_windows)
  pub ready : CanFinish (keys p.window_rule_state.pending_windows) p

elem-differs : (u w : ℕ) (ws : List ℕ) → elem w ws ≡ false → elem u ws ≡ true → (u == w) ≡ false
elem-differs u w ws h k = elim (Bool-cases (u == w)) [
  | inl e ↦ let same : u ≡ w = ground arith in ground (arith, ap (λ x. elem x ws) same)
  | inr e ↦ e
]

-- Once `w` is done, the others can still be finished.
CanFinish-others :
    (w : ℕ) (ws : List ℕ) (p q : Pinnacle) (v : Unmapped) (us : List Unmapped)
    → ((x : ℕ) → (x == w) ≡ false → q.window_states x ≡ p.window_states x)
    → elem w ws ≡ false
    → v.window ≡ w
    → all (can_finish (w ∷ ws) p) us ≡ true
    → all (can_finish ws q) (us ++ v ∷ []) ≡ true
CanFinish-others w ws p q v us o d m c = ground (
  arith,
  all-append (can_finish ws q) us (v ∷ []),
  ap (λ x. elem x ws) m,
  all_mono (can_finish (w ∷ ws) p) (can_finish ws q) us
      (λ u h. ground (arith, o u.window, elem-differs u.window w ws d)) c,
)

module _ ⦃ix : IndexSet⦄ ⦃smithay : Smithay⦄ where
  -- Rules are applied to an unmapped window that waits for them.
  apply-total :
      (u : Unmapped) (p : Pinnacle)
      → waits_for_rules u.state ≡ true
      → is_sent (p.window_states u.window).surface ≡ false
      → (q : Pinnacle) × (v : Unmapped) × (apply_window_rules_and_send_initial_configure u p
          ≡ some (q, v))
        × (v.window ≡ u.window)
        × KeepsOthers u.window p q
  unfolding apply_window_rules_and_send_initial_configure
  apply-total u p h s = go u.state refl
    where
      go :
          (st : UnmappedState)
          → u.state ≡ st
          → (q : Pinnacle) × (v : Unmapped) × (apply_window_rules_and_send_initial_configure u p
              ≡ some (q, v))
            × (v.window ≡ u.window)
            × KeepsOthers u.window p q
      go (waiting_for_tags c) e = ground arith
      go (waiting_for_rules r c) e =
          let (q, a, b, f, k) = apply_rules-total u r c p s in
          (q, record u { state = post_initial_configure a b }, ground (arith, f), refl, k)
      go (post_initial_configure a b) e = ground arith

  finish_window-total :
      (w : ℕ) (ws : List ℕ) (p : Pinnacle)
      → Distinct (w ∷ ws)
      → CanFinish (w ∷ ws) p
      → (q : Pinnacle) × (finish_window w p ≡ some q)
        × CanFinish ws q
        × (q.window_rule_state ≡ p.window_rule_state)
  unfolding finish_window
  finish_window-total w ws p d c = elim (Option-cases (position_of w p.unmapped_windows)) [
    | inl e ↦ (
      p,
      ground arith,
      all_mono (can_finish (w ∷ ws) p) (can_finish ws p) p.unmapped_windows (λ u h. ground arith) c,
      refl,
    )
    | inr (i, e) ↦
        let (u, g, n) = position_of-get w i p.unmapped_windows e in
        let ready = all-get (can_finish (w ∷ ws) p) u i p.unmapped_windows c g in
        let p' : Pinnacle = record p { unmapped_windows = swap_remove i p.unmapped_windows } in
        let (q, v, f, m, k) =
          apply-total u p' (ground (arith, ready, n)) (ground (arith, ready, n)) in
        (
          push_back (q, v),
          ground (arith, f, g),
          ap (λ us. all (can_finish ws q) (us ++ v ∷ [])) k.unmapped
              ∙ CanFinish-others w ws p q v (swap_remove i p.unmapped_windows)
                  (λ x h. k.others x (ap (λ y. x == y) n ∙ h)) d.0 (m ∙ n)
                  (all-swap_remove (can_finish (w ∷ ws) p) i p.unmapped_windows c),
          k.requests,
        )
  ]

  finish_windows-total :
      (ws rest : List ℕ) (p : Pinnacle)
      → Distinct (ws ++ rest)
      → CanFinish (ws ++ rest) p
      → (q : Pinnacle) × (finish_windows ws p ≡ some q)
        × CanFinish rest q
        × (q.window_rule_state ≡ p.window_rule_state)
  unfolding finish_windows
  finish_windows-total [] rest p d c = (p, refl, c, refl)
  finish_windows-total (w ∷ ws) rest p d c =
      let (q, e, k, s) = finish_window-total w (ws ++ rest) p d c in
      let (r, f, l, t) = finish_windows-total ws rest q d.1 k in (r, ground (arith, e, f), l, t ∙ s)

  -- A client's answer never panics and leaves `RulesReady` as it was, if that held; exactly the requests
  -- that are not answered by then stay pending, in their order.
  pub on_finished_lem :
      (counter id : ℕ) (p : Pinnacle)
      → RulesReady p
      → (q : Pinnacle) × (on_finished counter id p ≡ some q)
        × RulesReady q
        × (q.window_rule_state.pending_windows
            ≡ retain
                (λ e. not (is_done (update p.rule_counters counter id) e.1))
                p.window_rule_state.pending_windows)
  unfolding on_finished
  on_finished_lem counter id p i =
      let done =
        λ (e : ℕ × PendingWindowRuleRequest). is_done (update p.rule_counters counter id) e.1 in
      let pend = p.window_rule_state.pending_windows in
      let open_requests = retain (λ e. not (done e)) pend in
      let p' : Pinnacle = record p {
        window_rule_state = record p.window_rule_state { pending_windows = open_requests };
        rule_counters = update p.rule_counters counter id;
      } in
      let distinct = Distinct-keys_split done pend i.distinct in
      let (q, e, k, s) =
        finish_windows-total (keys (retain done pend)) (keys open_requests) p' distinct (
          all_mono (can_finish (keys pend) p) (can_finish _ p') p.unmapped_windows
            (λ u h. ground (arith, h, elem-keys_split done u.window pend)) i.ready) in
      (
        q,
        e,
        record {
          distinct =
              subst (λ (st : WindowRuleState). Distinct (keys st.pending_windows)) (sym s)
                (Distinct-rest (keys (retain done pend)) (keys open_requests) distinct);
          ready = subst (λ (st : WindowRuleState). CanFinish (keys st.pending_windows) q) (sym s) k;
        },
        ap (λ (st : WindowRuleState). st.pending_windows) s,
      )
