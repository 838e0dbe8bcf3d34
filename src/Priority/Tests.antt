-- ===== src/Priority/Tests.antt =====
-- Priorities of concrete tasks and transactions.
use headless_testing.Base.{◌≡◌, refl, true, false, inl}
use headless_testing.Base.Int.{pos, ◌≤ℤ◌}
use headless_testing.Priority.{
  Task, BinderPriority, sched_normal, sched_fifo, TransactionPriority, binder_transaction_priority,
  binder_set_priority,
}
use headless_testing.Priority.Caps.{Allowed, binder_set_priority-IsAllowed}
use headless_testing.Priority.Node.{binder_transaction_priority_floor}

abbrev plain_task : Task
plain_task = record {
  policy = sched_normal;
  normal_prio = pos 120;
  has_cap_nice = false;
  max_rtprio = pos 0;
  min_nice = pos 0;
}

abbrev rt_caller : BinderPriority
rt_caller = record { sched_policy = sched_fifo; prio = pos 98 }

abbrev urgent_node : BinderPriority
urgent_node = record { sched_policy = sched_normal; prio = pos 112 }

binder_set_priority-IsAllowed_example :
    Allowed plain_task (binder_set_priority plain_task rt_caller)
binder_set_priority-IsAllowed_example = binder_set_priority-IsAllowed plain_task rt_caller refl

abbrev rt_transaction : TransactionPriority
rt_transaction = record {
  priority = rt_caller;
  saved_priority = rt_caller;
  set_priority_called = false;
}

binder_transaction_priority_floor_example :
    (desired : BinderPriority) × (desired.prio ≤ℤ urgent_node.prio)
    × ((binder_transaction_priority plain_task rt_transaction urgent_node true).1
        ≡ binder_set_priority plain_task desired)
binder_transaction_priority_floor_example =
    binder_transaction_priority_floor plain_task rt_transaction urgent_node true refl (inl refl)
