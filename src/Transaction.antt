-- ===== src/Transaction.antt =====
-- src/util/transaction.rs: a transaction, which several windows commit together. `inner` is the `Arc`
-- that the builder and the `Transaction`s share, with its strong count; the pending transaction and
-- the blockers hold weak pointers to it, and find `none` once it was freed.
pub mod Drops
use pinnacle.Common.{
  ℕ, zero, suc, ◌+◌, ◌-◌, Bool, true, false, not, ◌&&◌, List, [], ◌∷◌, ◌++◌, Option, none, some,
  any, if◌then◌else◌, ◌==◌, is_some,
}

pub record Inner : Type 0 where
  pub completed : Bool
  pub notifications : Option (List ℕ)
  pub strong : ℕ

pub data Deadline : Type 0 where
  not_registered registered : Deadline

pub data BlockerState : Type 0 where
  released pending : BlockerState

-- With it, the clients notified so far, and whether the timer was told to go.
pub record Shared : Type 0 where
  pub inner : Option Inner
  pub deadline : Deadline
  pub notified : List ℕ
  pub timer_removed : Bool

abbrev pub clients : Option (List ℕ) → List ℕ
clients none = []
clients (some cs) = cs

-- `TransactionBuilder::new`.
unfoldable pub new : Shared
new = record {
  inner = some (record { completed = false; notifications = none; strong = 1 });
  deadline = not_registered;
  notified = [];
  timer_removed = false;
}

-- `Arc::clone` and the drop of one.
unfoldable pub clone_arc : Shared → Shared
clone_arc s = elim s.inner [
  | none ↦ s
  | some i ↦ record s { inner = some (record i { strong = i.strong + 1 }) }
]

unfoldable pub drop_arc : Shared → Shared
drop_arc s = elim s.inner [
  | none ↦ s
  | some i ↦ record s {
    inner = if i.strong == 1 then none else some (record i { strong = i.strong - 1 });
  }
]

unfoldable pub register_deadline_timer : Shared → Shared
register_deadline_timer s = record s { deadline = registered }

-- `TransactionBuilder::get_transaction`.
unfoldable pub get_transaction : Shared → Shared
unfolding clone_arc register_deadline_timer
get_transaction s = register_deadline_timer (clone_arc s)

-- `Inner::complete`.
unfoldable pub complete : Shared → Shared
complete s = elim s.inner [
  | none ↦ s
  | some i ↦ record s {
    inner = some (record i { completed = true; notifications = none });
    notified = s.notified ++ clients i.notifications;
  }
]

-- `Transaction::is_completed`, and `is_last`.
unfoldable pub inner_completed : Shared → Bool
inner_completed s = elim s.inner [ none ↦ true | some i ↦ i.completed ]

unfoldable pub is_last : Shared → Bool
is_last s = elim s.inner [ none ↦ false | some i ↦ i.strong == 1 ]

unfoldable pub add_notification : ℕ → Shared → Shared
add_notification client s = elim s.inner [
  | none ↦ s
  | some i ↦ if i.completed then s else record s {
    inner = some (record i { notifications = some (clients i.notifications ++ client ∷ []) });
  }
]

abbrev is_registered : Deadline → Bool
is_registered not_registered = false
is_registered registered = true

-- `Drop for Transaction`, and the drop of the `Arc` that follows.
unfoldable pub drop_transaction : Shared → Shared
unfolding is_last complete drop_arc
drop_transaction s =
    drop_arc
      (if is_last s then record (complete s) { timer_removed = is_registered s.deadline } else s)

-- The timer's callback.
unfoldable pub deadline_fires : Shared → Shared
unfolding complete
deadline_fires s = complete s

-- `PendingTransaction::is_completed` and `is_cancelled`; the latter is asked whether each window of
-- the transaction is alive.
unfoldable pub is_completed : Shared → Bool
unfolding inner_completed
is_completed s = inner_completed s

unfoldable pub is_cancelled : (ℕ → Bool) → List ℕ → Shared → Bool
unfolding is_completed
is_cancelled alive windows s = not (is_completed s) && any (λ w. not (alive w)) windows

unfoldable pub blocker_state : Shared → BlockerState
unfolding inner_completed
blocker_state s = if inner_completed s then released else pending
