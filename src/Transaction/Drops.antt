-- ===== src/Transaction/Drops.antt =====
-- src/util/transaction.rs: a transaction completes with the last of its windows, or at its deadline.
use mathlib.Core.List.{append-nil}
use pinnacle.Common.{ℕ, zero, suc, ◌≤◌, ◌≡◌, refl, sym, subst, true, false, ◌++◌, none, some, arith}
use pinnacle.Transaction.{
  Inner, Shared, clients, drop_transaction, is_completed, blocker_state, released, pending,
  deadline_fires, add_notification,
}

-- That many transactions dropped, one by one.
pub drops : ℕ → Shared → Shared
drops zero s = s
drops (suc k) s = drops k (drop_transaction s)

-- One drop, of the last transaction and of another.
drop_last_lem :
    (i : Inner) (s : Shared)
    → s.inner ≡ some i
    → i.strong ≡ 1
    → ((drop_transaction s).inner ≡ none)
      × ((drop_transaction s).notified ≡ s.notified ++ clients i.notifications)
unfolding drop_transaction
drop_last_lem i s e n = ground arith

drop_other_lem :
    (i : Inner) (s : Shared) (n : ℕ)
    → s.inner ≡ some i
    → i.strong ≡ suc (suc n)
    → drop_transaction s ≡ record s { inner = some (record i { strong = suc n }) }
unfolding drop_transaction
drop_other_lem i s n e h = ground arith

still_pending :
    (k n : ℕ) (i : Inner) (s : Shared)
    → s.inner ≡ some i
    → i.strong ≡ suc n
    → i.completed ≡ false
    → k ≤ n
    → (is_completed (drops k s) ≡ false)
      × (blocker_state (drops k s) ≡ pending)
      × ((drops k s).notified ≡ s.notified)
unfolding drops is_completed blocker_state
still_pending zero n i s e h c l = (ground arith, ground arith, refl)
still_pending (suc k) zero i s e h c l = ground arith
still_pending (suc k) (suc n) i s e h c l =
    let j : Inner = record i { strong = suc n } in
    let t : Shared = record s { inner = some j } in
    subst
      (λ u.
        (is_completed (drops k u) ≡ false)
        × (blocker_state (drops k u) ≡ pending)
        × ((drops k u).notified ≡ s.notified))
      (sym (drop_other_lem i s n e h)) (still_pending k n j t refl refl c (omega arith))

at_last :
    (n : ℕ) (i : Inner) (s : Shared)
    → s.inner ≡ some i
    → i.strong ≡ suc n
    → (is_completed (drops (suc n) s) ≡ true)
      × (blocker_state (drops (suc n) s) ≡ released)
      × ((drops (suc n) s).notified ≡ s.notified ++ clients i.notifications)
unfolding drops is_completed blocker_state
at_last zero i s e h =
    let last = drop_last_lem i s e h in (ground (arith, last), ground (arith, last), last.1)
at_last (suc n) i s e h =
    let j : Inner = record i { strong = suc n } in
    let t : Shared = record s { inner = some j } in
    subst
      (λ u.
        (is_completed (drops (suc n) u) ≡ true)
        × (blocker_state (drops (suc n) u) ≡ released)
        × ((drops (suc n) u).notified ≡ s.notified ++ clients i.notifications))
      (sym (drop_other_lem i s n e h)) (at_last n j t refl refl)

-- A transaction of which `n + 1` are held, and the builder no more, is not completed by the drop of
-- `k` of them, when `k ≤ n`, and nobody is notified; the drop of all of them completes it, releases
-- its blockers and notifies every client that waits, once and in order.
pub drops_lem :
    (n : ℕ) (i : Inner) (s : Shared)
    → s.inner ≡ some i
    → i.strong ≡ suc n
    → i.completed ≡ false
    → ((k : ℕ)
        → k ≤ n
        → (is_completed (drops k s) ≡ false)
          × (blocker_state (drops k s) ≡ pending)
          × ((drops k s).notified ≡ s.notified))
      × (is_completed (drops (suc n) s) ≡ true)
      × (blocker_state (drops (suc n) s) ≡ released)
      × ((drops (suc n) s).notified ≡ s.notified ++ clients i.notifications)
drops_lem n i s e h c =
    let last = at_last n i s e h in (λ k l. still_pending k n i s e h c l, last.0, last.1, last.2)

-- The deadline completes a transaction that is still held, releases its blockers and notifies every
-- client that waits; after that no client can be added, and a drop that follows notifies nobody again.
pub deadline_fires_lem :
    (i : Inner) (s : Shared)
    → s.inner ≡ some i
    → let t = deadline_fires s in
      (is_completed t ≡ true)
      × (blocker_state t ≡ released)
      × (t.notified ≡ s.notified ++ clients i.notifications)
      × ((client : ℕ) → add_notification client t ≡ t)
      × ((drop_transaction t).notified ≡ t.notified)
unfolding deadline_fires is_completed blocker_state add_notification drop_transaction
deadline_fires_lem i s e = (
  ground arith,
  ground arith,
  ground arith,
  λ client. ground arith,
  ground (arith, append-nil (s.notified ++ clients i.notifications)),
)
