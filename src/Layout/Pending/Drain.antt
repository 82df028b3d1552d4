-- ===== src/Layout/Pending/Drain.antt =====
-- src/layout.rs: which transactions `update_layout` takes off a queue, and how many rounds it needs.
use mathlib.Core.List.{append-nil, append_assoc}
use pinnacle.Common.{
  ℕ, zero, suc, ◌≤◌, ◌≡◌, ◌∙◌, ap, Bool, not, ◌&&◌, List, [], ◌∷◌, ◌++◌, none, some, insert_entry,
  if◌then◌else◌, arith, length, retain, any, lookup-insert, ==_refl, ◌==◌, Bool-cases, inl, inr,
}
use pinnacle.Transaction.{Shared, is_completed}
use pinnacle.Layout.Pending.{
  after_first, take_if_done, PendingTransaction, queue, add_for_output, take_next_for_output,
  may_take, take_next_transaction, Draining, took, drain,
}

-- A queue gives back what was put in, first in, first out, and an output's queue does not touch those
-- of the others: what is added comes after all that waits, and the next one taken is the first.
pub take_next-add_for_output :
    {A : Type 0} (o x : ℕ) (a : A) (m : List (ℕ × List A))
    → (queue x (add_for_output o a m) ≡ (if o == x then queue o m ++ a ∷ [] else queue x m))
      × ((b : A) (q : List A)
          → queue o m ≡ b ∷ q
          → ((take_next_for_output o m).0 ≡ some b)
            × (queue x (take_next_for_output o m).1 ≡ (if o == x then q else queue x m)))
      × (queue o m ≡ [] → (take_next_for_output o m).0 ≡ none)
unfolding add_for_output take_next_for_output
take_next-add_for_output o x a m = (
  ground (arith, lookup-insert o x (queue o m ++ a ∷ []) m),
  λ b q e. (
    ap (λ (l : List _). (after_first o m l).0) e,
    ap (λ (l : List _). queue x (after_first o m l).1) e ∙ ground (arith, lookup-insert o x q m),
  ),
  λ e. ap (λ (l : List _). (after_first o m l).0) e,
)

module _ (is_wlcs : Bool) (alive : ℕ → Bool) (shared : ℕ → Shared) where
  -- The transactions at the front that may be taken, and the rest.
  abbrev pub front : List PendingTransaction → List PendingTransaction
  front [] = []
  front (t ∷ q) = let rest = front q in if may_take is_wlcs alive shared t then t ∷ rest else []

  abbrev pub behind : List PendingTransaction → List PendingTransaction
  behind [] = []
  behind (t ∷ q) = let rest = behind q in if may_take is_wlcs alive shared t then rest else t ∷ q

  drain_empty :
      (n o : ℕ) (d : Draining)
      → queue o d.queues ≡ []
      → drain is_wlcs alive shared (suc n) o d ≡ record d { queues = insert_entry o [] d.queues }
  unfolding drain take_next_transaction
  drain_empty n o d e =
      ap
        (λ (l : List PendingTransaction). elim (take_if_done is_wlcs alive shared o d.queues l).0 [
          | none ↦ record d { queues = (take_if_done is_wlcs alive shared o d.queues l).1 }
          | some t ↦
              drain is_wlcs alive shared n o
                (took is_wlcs alive shared t (take_if_done is_wlcs alive shared o d.queues l).1 d)
        ])
        e

  drain_first :
      (n o : ℕ) (t : PendingTransaction) (q : List PendingTransaction) (d : Draining)
      → queue o d.queues ≡ t ∷ q
      → drain is_wlcs alive shared (suc n) o d ≡ (
          if may_take is_wlcs alive shared t
          then drain is_wlcs alive shared n o
              (took is_wlcs alive shared t (insert_entry o q d.queues) d)
          else record d { queues = insert_entry o (t ∷ q) d.queues })
  unfolding drain take_next_transaction
  drain_first n o t q d e =
      ap
        (λ (l : List PendingTransaction). elim (take_if_done is_wlcs alive shared o d.queues l).0 [
          | none ↦ record d { queues = (take_if_done is_wlcs alive shared o d.queues l).1 }
          | some t ↦
              drain is_wlcs alive shared n o
                (took is_wlcs alive shared t (take_if_done is_wlcs alive shared o d.queues l).1 d)
        ])
        e
      ∙ ground arith

  -- With more rounds than transactions wait, the loop ends by itself: it takes off the queue the
  -- transactions at its front that are completed or cancelled, and no others; it goes on with the
  -- completed ones, in their order; and a throttle on swaps, or on resizes, is lifted exactly when one
  -- that was taken is a swap, or a resize.
  pub drain_lem :
      (n o : ℕ) (q : List PendingTransaction) (d : Draining)
      → queue o d.queues ≡ q
      → length q ≤ n
      → let r = drain is_wlcs alive shared (suc n) o d in
        (queue o r.queues ≡ behind q)
        × (r.transactions ≡ d.transactions ++ retain (λ t. is_completed (shared t.inner)) (front q))
        × (r.pending_swap ≡ (d.pending_swap && not (any (λ t. t.is_swap) (front q))))
        × (r.pending_resize ≡ (d.pending_resize && not (any (λ t. t.is_resize) (front q))))
  drain_lem n o [] d e l = ground (
    arith,
    drain_empty n o d e,
    lookup-insert o o [] d.queues,
    ==_refl o,
    append-nil d.transactions,
  )
  drain_lem zero o (t ∷ q) d e l = ground arith
  drain_lem (suc n) o (t ∷ q) d e l =
      let m = insert_entry o q d.queues in
      let here = drain_first (suc n) o t q d e in
      elim (Bool-cases (may_take is_wlcs alive shared t)) [
        | inl y ↦
            let next = took is_wlcs alive shared t m d in
            let rest =
              drain_lem n o q next (ground (arith, lookup-insert o o q d.queues, ==_refl o))
                (omega arith) in
            ground (
              arith,
              here,
              rest,
              append_assoc d.transactions (t ∷ [])
                  (retain (λ t. is_completed (shared t.inner)) (front q)),
            )
        | inr y ↦
            ground (
              arith,
              here,
              lookup-insert o o (t ∷ q) d.queues,
              ==_refl o,
              append-nil d.transactions,
            )
      ]
