-- ===== src/Driver/Send/Target.antt =====
-- Whom a transaction goes to: the process and the thread, or none and an error.
use headless_testing.Base.{ℕ, zero, suc, Bool, true, Option, none, some, ◌==◌, if◌then◌else◌}
use headless_testing.Kernel.{Run, ok, bug, ◌>>=◌}
use headless_testing.Driver.State.{
  Binder, br_dead_reply, br_failed_reply, set_thread, with_txn, with_ref,
}
use headless_testing.Driver.Ref.{binder_get_ref}
use headless_testing.Driver.Lifetime.{inc_proc, inc_thread}
use headless_testing.Driver.Transaction.{is_top, binder_get_node_refs_for_txn}
use headless_testing.Driver.Send.State.{TransactionData, SendKernel, Held, nothing_held, Found}

-- The sender of a transaction, with a temporary reference, if it is alive.
unfoldable pub binder_get_txn_from : Binder → ℕ → Run (Binder × Option ℕ)
binder_get_txn_from b t =
    with_txn b t
      λ tx. elim tx.from [ none ↦ ok (b, none) | some th ↦ ok (inc_thread b th, some th) ]

-- The sender of `t` gets the reply, if `t` is what it waits for. If not, its temporary reference
-- is kept.
unfoldable pub answer_sender : Binder → ℕ → Run Found
unfolding binder_get_txn_from
answer_sender b t = do
  (b', from) ← binder_get_txn_from b t
  elim from [
    | none ↦ ok (b', record nothing_held { in_reply_to = some t }, some br_dead_reply)
    | some u ↦
        let p = (b'.threads u).proc in
        let held : Held = record {
          in_reply_to = some t;
          target_thread = some u;
          target_proc = some p;
          target_node = none;
        } in
        if is_top (b'.threads u).transaction_stack t
        then ok (inc_proc b' p, held, none)
        else ok (b', nothing_held, some br_failed_reply)
  ]

-- The target of a reply by thread `th`: what it replies to leaves its stack.
unfoldable pub reply_target : Binder → ℕ → Run Found
unfolding answer_sender
reply_target b th = elim (b.threads th).transaction_stack [
  | none ↦ ok (b, nothing_held, some br_failed_reply)
  | some t ↦ with_txn b t λ tx.
      let popped = set_thread b th (record (b.threads th) { transaction_stack = tx.to_parent }) in
      if is_top tx.to_thread th
      then answer_sender popped t
      else ok (b, nothing_held, some br_failed_reply)
]

abbrev pub found_node : ℕ → Binder × Option ℕ → Found
found_node n (b, none) = (b, nothing_held, some br_dead_reply)
found_node n (b, some p) =
    (b, record nothing_held { target_proc = some p; target_node = some n }, none)

-- The node behind a handle of the process.
unfoldable pub handle_target : Binder → ℕ → ℕ → Run Found
unfolding binder_get_ref binder_get_node_refs_for_txn
handle_target b p desc = do
  found ← binder_get_ref b p desc true
  elim found [
    | none ↦ ok (b, nothing_held, some br_failed_reply)
    | some r ↦ with_ref b r λ rf. elim rf.node [
      | none ↦ bug
      | some n ↦ binder_get_node_refs_for_txn b n >>= λ g. ok (found_node n g)
    ]
  ]

-- A process does not call itself.
abbrev pub refuse_own : ℕ → Found → Found
refuse_own p (b, held, some e) = (b, held, some e)
refuse_own p (b, held, none) =
    if is_top held.target_proc p then (b, held, some br_failed_reply) else (b, held, none)

-- The context manager of the process.
unfoldable pub manager_target : Binder → ℕ → Run Found
unfolding binder_get_node_refs_for_txn
manager_target b p = elim (b.context_mgr (b.procs p).context) [
  | none ↦ ok (b, nothing_held, some br_dead_reply)
  | some n ↦ binder_get_node_refs_for_txn b n >>= λ g. ok (refuse_own p (found_node n g))
]

abbrev pub allow_transaction : Bool → Found → Found
allow_transaction may_transact (b, held, some e) = (b, held, some e)
allow_transaction may_transact (b, held, none) =
    if may_transact then (b, held, none) else (b, held, some br_failed_reply)

-- A caller of process `target` among the transactions in which this one is made; none outside is
-- lack of fuel.
unfoldable pub find_caller : ℕ → Binder → ℕ → Option ℕ → Run (Option (Option ℕ))
find_caller fuel b target none = ok (some none)
find_caller zero b target (some t) = ok none
find_caller (suc fuel) b target (some t) =
    let next = λ (u : Option ℕ). find_caller fuel b target u in
    with_txn b t λ tx. elim tx.from [
      | none ↦ next tx.from_parent
      | some u ↦ if (b.threads u).proc == target then ok (some (some u)) else next tx.from_parent
    ]

abbrev pub with_caller : Binder → Held → Option (Option ℕ) → Option Found
with_caller b held none = none
with_caller b held (some none) = some (b, held, none)
with_caller b held (some (some u)) =
    some (inc_thread b u, record held { target_thread = some u }, none)

-- A call from within a call must be made by the thread that serves that one. If the target waits
-- for this thread further out, its waiting thread is to serve the call.
unfoldable pub nest_call : ℕ → Binder → Held → ℕ → ℕ → Run (Option Found)
unfolding find_caller
nest_call fuel b held th target = elim (b.threads th).transaction_stack [
  | none ↦ ok (some (b, held, none))
  | some t ↦ with_txn b t λ tx.
      if is_top tx.to_thread th
      then (find_caller fuel b target (some t) >>= λ u. ok (with_caller b held u))
      else ok (some (b, held, some br_failed_reply))
]

-- A one-way call is not made within another.
unfoldable pub place_call : ℕ → ℕ → Bool → Found → Run (Option Found)
unfolding nest_call
place_call fuel th one_way (b, held, some e) = ok (some (b, held, some e))
place_call fuel th one_way (b, held, none) =
    if one_way
    then ok (some (b, held, none))
    else elim held.target_proc [ none ↦ bug | some p ↦ nest_call fuel b held th p ]

-- The target of a call by thread `th`.
unfoldable pub call_target : SendKernel → ℕ → Binder → ℕ → TransactionData → Run (Option Found)
unfolding handle_target manager_target place_call
call_target k fuel b th tr =
    let p = (b.threads th).proc in
    (if tr.handle == 0 then manager_target b p else handle_target b p tr.handle) >>= λ found.
    place_call fuel th tr.one_way (allow_transaction k.may_transact (refuse_own p found))

unfoldable pub find_target :
    SendKernel → ℕ → Binder → ℕ → TransactionData → Bool → Run (Option Found)
unfolding reply_target call_target
find_target k fuel b th tr reply =
    if reply then (reply_target b th >>= λ found. ok (some found)) else call_target k fuel b th tr
