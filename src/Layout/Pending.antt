-- ===== src/Layout/Pending.antt =====
-- src/layout.rs: the queues of what waits for a layout, by output, and the loop of `update_layout` that
-- takes transactions off. A `HashMap` from outputs is a list of entries.
pub mod Drain
use pinnacle.Common.{
  ℕ, zero, suc, Bool, true, false, not, ◌&&◌, ◌||◌, List, [], ◌∷◌, ◌++◌, Option, none, some, lookup,
  insert_entry, without_key, if◌then◌else◌,
}
use pinnacle.Transaction.{Shared, is_completed, is_cancelled}

-- src/util/transaction.rs: a pending transaction, with the pointer that it shares and its windows.
pub record PendingTransaction : Type 0 where
  pub target_windows : List ℕ
  pub inner : ℕ
  pub is_swap : Bool
  pub is_resize : Bool

-- The three kinds of queue differ in what they hold.
module _ {A : Type 0} where
  abbrev pub entry_of : Option (List A) → List A
  entry_of none = []
  entry_of (some q) = q

  -- `entry(…).or_default()`.
  abbrev pub queue : ℕ → List (ℕ × List A) → List A
  queue output m = entry_of (lookup output m)

  unfoldable pub add_for_output : ℕ → A → List (ℕ × List A) → List (ℕ × List A)
  add_for_output output a m = insert_entry output (queue output m ++ a ∷ []) m

  abbrev pub after_first : ℕ → List (ℕ × List A) → List A → Option A × List (ℕ × List A)
  after_first output m [] = (none, insert_entry output [] m)
  after_first output m (a ∷ q) = (some a, insert_entry output q m)

  -- `PendingUnmaps` and `PendingWindowUpdates`.
  unfoldable pub take_next_for_output : ℕ → List (ℕ × List A) → Option A × List (ℕ × List A)
  take_next_for_output output m = after_first output m (queue output m)

module _ (is_wlcs : Bool) (alive : ℕ → Bool) (shared : ℕ → Shared) where
  unfoldable pub may_take : PendingTransaction → Bool
  unfolding is_completed is_cancelled
  may_take t =
      is_completed (shared t.inner)
      || is_cancelled alive t.target_windows (shared t.inner)
      || is_wlcs

  abbrev pub take_if_done :
      ℕ
      → List (ℕ × List PendingTransaction)
      → List PendingTransaction
      → Option PendingTransaction × List (ℕ × List PendingTransaction)
  take_if_done output m [] = (none, insert_entry output [] m)
  take_if_done output m (t ∷ q) =
      if may_take t
      then (some t, insert_entry output q m)
      else (none, insert_entry output (t ∷ q) m)

  -- `PendingTransactions::take_next_for_output`.
  unfoldable pub take_next_transaction :
      ℕ
      → List (ℕ × List PendingTransaction)
      → Option PendingTransaction × List (ℕ × List PendingTransaction)
  unfolding may_take
  take_next_transaction output m = take_if_done output m (queue output m)

-- What the `while let` loop of `update_layout` changes.
pub record Draining : Type 0 where
  pub queues : List (ℕ × List PendingTransaction)
  pub transactions : List PendingTransaction
  pub pending_swap : Bool
  pub pending_resize : Bool

module _ (is_wlcs : Bool) (alive : ℕ → Bool) (shared : ℕ → Shared) where
  abbrev pub took : PendingTransaction → List (ℕ × List PendingTransaction) → Draining → Draining
  took t m d = record {
    queues = m;
    transactions =
        if is_completed (shared t.inner) then d.transactions ++ t ∷ [] else d.transactions;
    pending_swap = if t.is_swap then false else d.pending_swap;
    pending_resize = if t.is_resize then false else d.pending_resize;
  }

  -- The loop, with at most so many rounds.
  unfoldable pub drain : (rounds : ℕ) → ℕ → Draining → Draining
  unfolding take_next_transaction is_completed
  drain zero output d = d
  drain (suc n) output d =
      let (next, m) = take_next_transaction is_wlcs alive shared output d.queues in
      elim next [ none ↦ record d { queues = m } | some t ↦ drain n output (took t m d) ]
