-- ===== src/Examples/QueueRuns.antt =====
-- A transaction of two windows, the queues of an output, tags of a window and the z-index stack.
use pinnacle.Common.{
  arith, if◌then◌else◌, ℕ, ◌≡◌, ◌≢◌, refl, Bool, true, false, [], ◌∷◌, none, some, ◌==◌,
}
use pinnacle.Transaction.{
  Inner, Shared, registered, is_completed, blocker_state, released, deadline_fires,
}
use pinnacle.Transaction.Drops.{drops, drops_lem, deadline_fires_lem}
use pinnacle.Layout.Pending.{PendingTransaction, Draining, queue, may_take, drain}
use pinnacle.Layout.Pending.Drain.{drain_lem}
use pinnacle.Layout.Request.{z_windows}
use pinnacle.Window.Api.{set_tag}
use pinnacle.Window.Api.Tags.{set_tag_lem}
use pinnacle.Focus.ZOrder.{raise_window}
use pinnacle.Focus.ZOrder.Laws.{raise_lower_lem}
use pinnacle.Examples.World.{list_sets, world}

abbrev shared_by_two : Inner
shared_by_two = record { completed = false; notifications = some (4 ∷ 5 ∷ []); strong = 2 }

abbrev two_windows : Shared
two_windows = record {
  inner = some shared_by_two;
  deadline = registered;
  notified = [];
  timer_removed = false;
}

drops_lem_example : is_completed (drops 1 two_windows) ≡ false
drops_lem_example = ((drops_lem 1 shared_by_two two_windows refl refl refl).0 1 (omega arith)).0

deadline_fires_lem_example : blocker_state (deadline_fires two_windows) ≡ released
deadline_fires_lem_example = (deadline_fires_lem shared_by_two two_windows refl).1

abbrev swap : PendingTransaction
swap = record { target_windows = 0 ∷ []; inner = 0; is_swap = true; is_resize = false }

abbrev waiting : PendingTransaction
waiting = record { target_windows = 0 ∷ []; inner = 1; is_swap = false; is_resize = false }

-- The first pointer's transaction was freed.
abbrev shared : ℕ → Shared
shared n = if n == 0 then record two_windows { inner = none } else two_windows

abbrev draining : Draining
draining = record {
  queues = (0, swap ∷ waiting ∷ []) ∷ [];
  transactions = [];
  pending_swap = true;
  pending_resize = true;
}

abbrev all_alive : ℕ → Bool
all_alive w = true

drain_lem_example :
    let r = drain false all_alive shared 3 0 draining in
    (queue 0 r.queues ≡ waiting ∷ [])
    × (r.transactions ≡ swap ∷ [])
    × (r.pending_swap ≡ false)
    × (r.pending_resize ≡ true)
unfolding may_take
drain_lem_example =
    drain_lem false all_alive shared 2 0 (swap ∷ waiting ∷ []) draining refl (omega arith)

set_tag_lem_example : ((set_tag 0 0 none world).window_states 0).tags ≢ []
set_tag_lem_example = (set_tag_lem 0 0 none world).1 (refl, tt) (λ e. ground (arith, e))

raise_lower_lem_example : z_windows (raise_window 0 world).z_index_stack ≡ 1 ∷ 2 ∷ 0 ∷ []
raise_lower_lem_example = (raise_lower_lem 0 world).0
