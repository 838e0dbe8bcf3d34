-- ===== src/Driver/Transaction/Tests.antt =====
-- A call in a call whose caller has died, and one-way calls to a node.
use headless_testing.Base.{
  ◌≡◌, refl, Bool, true, false, Option, none, some, [], ◌∷◌, arith, if◌then◌else◌, ◌==◌,
}
use headless_testing.Base.Int.{pos}
use headless_testing.Kernel.{Run, ok, bug, Ends, Always}
use headless_testing.RbTree.Plain.{plain}
use headless_testing.Driver.State.{
  Binder, BinderNode, BinderTransaction, transaction_work, br_dead_reply,
}
use headless_testing.Driver.Tests.{driver, a_thread, lone}
use headless_testing.Driver.Transaction.{binder_send_failed_reply, send_to_node, next_one_way}
use headless_testing.Driver.Transaction.OneWay.{SentIf, send_to_node-Sends, Next, next_one_way-Next}
use headless_testing.Driver.Transaction.Order.{
  History, starts, sends, finishes, Served, History-InOrder,
}
use headless_testing.Driver.Transaction.FailedReply.{
  dead, live, Fails, sender, binder_send_failed_reply-Ends,
}

abbrev pub a_txn : BinderTransaction
a_txn = record {
  from = none;
  from_parent = none;
  to_proc = some 0;
  to_thread = none;
  to_parent = none;
  need_reply = true;
  buffer = none;
  code = 1;
  one_way = false;
  accept_fds = true;
  priority = record {
    priority = record { sched_policy = 0; prio = pos 120 };
    saved_priority = record { sched_policy = 0; prio = pos 120 };
    set_priority_called = false;
  };
  sender_euid = 0;
  security_ctx = 0;
}

-- Transaction 1, whose sender is dead, was made in transaction 2 of thread 5.
abbrev orphan : BinderTransaction
orphan = record a_txn { from_parent = some 2 }

abbrev outer : BinderTransaction
outer = record a_txn { from = some 5 }

abbrev pub nested : Binder
nested = record driver {
  txns = λ t. if t == 1 then some orphan else if t == 2 then some outer else none;
  threads = λ t. if t == 5 then record a_thread { transaction_stack = some 2 } else a_thread;
}

binder_send_failed_reply-Ends_example :
    Ends
      (Fails (1 ∷ 2 ∷ []) (sender 5 none) br_dead_reply nested)
      (binder_send_failed_reply plain 2 nested 1 br_dead_reply)
binder_send_failed_reply-Ends_example =
    binder_send_failed_reply-Ends plain 2 nested 1 (1 ∷ 2 ∷ []) (sender 5 none) br_dead_reply
      (dead {tx = orphan} refl refl refl (live {tx = outer} refl refl)) (omega arith)

abbrev returns : Run (Option Binder) → Bool
returns bug = false
returns (ok none) = false
returns (ok (some b)) = true

nested_fails : returns (binder_send_failed_reply plain 2 nested 1 br_dead_reply) ≡ true
unfolding binder_send_failed_reply
nested_fails = refl

-- One-way transactions 3 and 4 to node 7 of process 0. The second waits.
abbrev owned : BinderNode
owned = record lone { proc = some 0 }

abbrev one_way_txn : BinderTransaction
one_way_txn = record a_txn { one_way = true }

abbrev at_rest : Binder
at_rest = record driver { nodes = λ n. if n == 7 then some owned else none }

abbrev after_send : Run (Binder × Bool) → Binder
after_send bug = driver
after_send (ok r) = r.0

abbrev after_next : Run Binder → Binder
after_next bug = driver
after_next (ok b) = b

abbrev one_sent : Binder
one_sent = after_send (send_to_node at_rest 3 one_way_txn 0 none 7 owned)

abbrev flagged : BinderNode
flagged = record owned { has_async_transaction = true }

abbrev two_sent : Binder
two_sent = after_send (send_to_node one_sent 4 one_way_txn 0 none 7 flagged)

abbrev one_done : Binder
one_done = after_next (next_one_way two_sent 0 7)

send_to_node-Sends_example :
    Always
      (SentIf 7 0 (transaction_work 4) flagged one_sent)
      (send_to_node one_sent 4 one_way_txn 0 none 7 flagged)
send_to_node-Sends_example = send_to_node-Sends one_sent 4 one_way_txn 0 7 flagged true refl refl

next_one_way-Next_example :
    Always
      (λ b'.
        (flagged.has_async_transaction ≡ true)
        × (flagged.proc ≡ some 0)
        × Next 7 0 flagged two_sent b' (4 ∷ []))
      (next_one_way two_sent 0 7)
unfolding send_to_node
next_one_way-Next_example = next_one_way-Next two_sent 0 7 flagged (4 ∷ []) refl refl

abbrev two_history : History 7 two_sent (3 ∷ 4 ∷ []) 0
unfolding send_to_node
two_history =
    sends {b = one_sent} {sent = 3 ∷ []} 4 one_way_txn 0 flagged
      (sends {b = at_rest} {sent = []} 3 one_way_txn 0 owned
        (starts {b = at_rest} {nd = owned} refl refl refl) refl refl refl refl)
      refl refl refl refl

abbrev one_history : History 7 one_done (3 ∷ 4 ∷ []) 1
unfolding send_to_node next_one_way
one_history = finishes {b = two_sent} 0 (4 ∷ []) two_history refl refl

History-InOrder_example : Served 7 one_done (3 ∷ 4 ∷ []) 1 one_history
History-InOrder_example = History-InOrder 7 one_done (3 ∷ 4 ∷ []) 1 one_history
