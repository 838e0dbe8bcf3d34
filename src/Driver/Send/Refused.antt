-- ===== src/Driver/Send/Refused.antt =====
-- The error paths of `binder_transaction` for a call.
use headless_testing.Base.{
  ℕ, zero, suc, ◌≡◌, refl, sym, ap, ◌∙◌, subst, Bool, true, false, not, Option, none, some, ◌==◌,
  if◌then◌else◌, if_both,
}
use headless_testing.Kernel.{
  Run, ok, bug, ◌>>=◌, ◌>>=?◌, Always, stops, gives, Always-bind, Always-any, Always-option, Ends,
  ended, stopped, Ends-bind, Ends-bug_on, Ends-done, Ends-done-any, Ends-map, Ends-none,
  Ends-option, Ends-Always, done, Always-map, Finishes, crashed, finished,
}
use headless_testing.RbTree.{RbLib}
use headless_testing.Driver.State.{
  Binder, BinderTransaction, BufferPtr, Reply, br_ok, br_error, br_dead_reply, br_failed_reply,
  br_transaction_complete, return_error_work, set_thread, with_txn,
}
use headless_testing.Driver.Heap.{write_self, ==_refl}
use headless_testing.Driver.Work.{binder_enqueue_thread_work, binder_enqueue_work}
use headless_testing.Driver.Ref.{binder_get_ref}
use headless_testing.Driver.Lifetime.{inc_thread}
use headless_testing.Driver.Transaction.{binder_get_node_refs_for_txn, forget_txn, is_top}
use headless_testing.Driver.Transaction.Told.{binder_enqueue_thread_work-Changes, with_work}
use headless_testing.Driver.Send.State.{TransactionData, SendKernel, Held, Found, Carried, Sending}
use headless_testing.Driver.Send.Target.{
  handle_target, manager_target, call_target, found_node, refuse_own, allow_transaction,
  find_caller, with_caller, nest_call, place_call,
}
use headless_testing.Driver.Send.Failure.{
  is_ok, tell, drop_thread, drop_proc, put_node, drop_target_node, drop_held, report_failure,
  fail_early, fail_late, release_sent,
}
use headless_testing.Driver.Send.Frames.{
  has_work, has_work-last, Keeps-write, Calm, Calm-same, Calm-trans, binder_dec_node-Calm,
  binder_dec_node_tmpref-Calm, binder_proc_dec_tmpref-Calm, binder_thread_dec_tmpref-Calm,
  binder_get_node_refs_for_txn-Calm,
}

-- At most `n` transactions, each made in the next, from the top of a stack on.
pub data StackOf (h : ℕ → Option BinderTransaction) : Option ℕ → ℕ → Type 0 where
  empty : {n : ℕ} → StackOf h none n
  above :
      {n t : ℕ} {tx : BinderTransaction}
      → h t ≡ some tx
      → StackOf h tx.from_parent n
      → StackOf h (some t) (suc n)

-- A call that failed with a dead or a failed reply.
abbrev pub is_failure : Reply → Bool
is_failure br_ok = false
is_failure br_error = false
is_failure br_dead_reply = true
is_failure br_failed_reply = true
is_failure br_transaction_complete = false

abbrev pub OnlyFails : Option Reply → Type 0
OnlyFails none = Unit
OnlyFails (some code) = is_failure code ≡ true

-- A target, found for a call, or a failure.
pub record Ready (b : Binder) (f : Found) : Type 0 where
  pub calm : Calm b f.0
  pub no_reply : f.1.in_reply_to ≡ none
  pub fails : OnlyFails f.2

pub stay : (b : Binder) → Calm b b
stay b = Calm-same b b refl refl

found_node-Ready :
    (b b' : Binder) (n : ℕ) (o : Option ℕ) → Calm b b' → Ready b (found_node n (b', o))
found_node-Ready b b' n none k = record { calm = k; no_reply = refl; fails = refl }
found_node-Ready b b' n (some p) k = record { calm = k; no_reply = refl; fails = tt }

refuse_own-Ready : (b : Binder) (p : ℕ) (f : Found) → Ready b f → Ready b (refuse_own p f)
refuse_own-Ready b p (b', held, some e) k = k
refuse_own-Ready b p (b', held, none) k =
    if_both (Ready b) (is_top held.target_proc p)
      (record { calm = k.calm; no_reply = k.no_reply; fails = refl })
      (record { calm = k.calm; no_reply = k.no_reply; fails = tt })

allow_transaction-Ready :
    (b : Binder) (may : Bool) (f : Found) → Ready b f → Ready b (allow_transaction may f)
allow_transaction-Ready b may (b', held, some e) k = k
allow_transaction-Ready b may (b', held, none) k =
    if_both (Ready b) may (record { calm = k.calm; no_reply = k.no_reply; fails = tt })
      (record { calm = k.calm; no_reply = k.no_reply; fails = refl })

refs-Ready :
    (b : Binder) (n : ℕ)
    → Always (Ready b) (binder_get_node_refs_for_txn b n >>= λ g. ok (found_node n g))
refs-Ready b n =
    Always-bind _ (binder_get_node_refs_for_txn-Calm b n)
      (λ g k. gives (found_node-Ready b g.0 n g.1 k))

handle_target-Ready : (b : Binder) (p desc : ℕ) → Always (Ready b) (handle_target b p desc)
unfolding handle_target
handle_target-Ready b p desc = Always-any (binder_get_ref b p desc true) (λ found.
    Always-option found (gives (record { calm = stay b; no_reply = refl; fails = refl })) (λ r e.
      Always-option (b.refs r) stops (λ rf f. Always-option rf.node stops (λ n g. refs-Ready b n))))

manager_target-Ready : (b : Binder) (p : ℕ) → Always (Ready b) (manager_target b p)
unfolding manager_target
manager_target-Ready b p =
    Always-option (b.context_mgr (b.procs p).context)
      (gives (record { calm = stay b; no_reply = refl; fails = refl }))
      (λ n e.
        Always-bind _ (binder_get_node_refs_for_txn-Calm b n)
          (λ g k. gives (refuse_own-Ready b p (found_node n g) (found_node-Ready b g.0 n g.1 k))))

no_room : {h : ℕ → Option BinderTransaction} {t : ℕ} → StackOf h (some t) zero → ⊥
no_room s = elim s [ ]

Finishes-read :
    {A B : Type 0} (o : Option A) (a : A) (f : A → Run (Option B))
    → o ≡ some a
    → Finishes (f a)
    → Finishes (elim o [ none ↦ bug | some x ↦ f x ])
Finishes-read o a f e h = subst (λ x. Finishes (elim x [ none ↦ bug | some y ↦ f y ])) (sym e) h

Finishes-from :
    {A B : Type 0} (o : Option A) (m : Run (Option B)) (f : A → Run (Option B))
    → Finishes m
    → ((a : A) → Finishes (f a))
    → Finishes (elim o [ none ↦ m | some x ↦ f x ])
Finishes-from none m f h k = h
Finishes-from (some a) m f h k = k a

find_caller-Finishes :
    (fuel : ℕ) (b : Binder) (target : ℕ) (o : Option ℕ)
    → StackOf b.txns o fuel
    → Finishes (find_caller fuel b target o)
unfolding find_caller
find_caller-Finishes zero b target none s = finished
find_caller-Finishes (suc fuel) b target none s = finished
find_caller-Finishes zero b target (some t) s = absurd (no_room s)
find_caller-Finishes (suc fuel) b target (some t) (above {tx = tx} e s) =
    let next = find_caller-Finishes fuel b target tx.from_parent s in
    Finishes-read (b.txns t) tx _ e (
      Finishes-from tx.from _ _ next
        (λ u. if_both Finishes ((b.threads u).proc == target) finished next))

with_caller-Ready :
    (b b' : Binder) (held : Held) {m : Run (Option (Option ℕ))}
    → Calm b b'
    → held.in_reply_to ≡ none
    → Finishes m
    → Ends (Ready b) (m >>= λ u. ok (with_caller b' held u))
with_caller-Ready b b' held k e crashed = stopped
with_caller-Ready b b' held k e (finished {a = none}) =
    ended (record { calm = k; no_reply = e; fails = tt })
with_caller-Ready b b' held k e (finished {a = some u}) = ended (record {
  calm = Calm-trans k (record {
    txns = refl;
    keeps =
        Keeps-write b' (inc_thread b' u) u _ refl (record { stack = refl; completes = λ tc h. h });
  });
  no_reply = e;
  fails = tt;
})

nest_call-Ready :
    (fuel : ℕ) (b b' : Binder) (held : Held) (th target : ℕ)
    → Calm b b'
    → held.in_reply_to ≡ none
    → StackOf b.txns (b.threads th).transaction_stack fuel
    → Ends (Ready b) (nest_call fuel b' held th target)
unfolding nest_call
nest_call-Ready fuel b b' held th target k e s =
    let same = (k.keeps.at th).stack in
    let s' : StackOf b'.txns (b'.threads th).transaction_stack fuel =
      subst (λ h. StackOf h (b'.threads th).transaction_stack fuel) (sym k.txns)
        (subst (λ o. StackOf b.txns o fuel) (sym same) s) in
    nested (b'.threads th).transaction_stack s'
  where
    nested :
        (o : Option ℕ)
        → StackOf b'.txns o fuel
        → Ends (Ready b) (elim o [
          | none ↦ ok (some (b', held, none))
          | some t ↦ with_txn b' t λ tx.
              if is_top tx.to_thread th
              then (find_caller fuel b' target (some t) >>= λ u. ok (with_caller b' held u))
              else ok (some (b', held, some br_failed_reply))
        ])
    nested none x = ended (record { calm = k; no_reply = e; fails = tt })
    nested (some t) x = Ends-option (b'.txns t) (λ tx.
        if_both (Ends (Ready b)) (is_top tx.to_thread th)
          (with_caller-Ready b b' held k e (find_caller-Finishes fuel b' target (some t) x))
          (ended (record { calm = k; no_reply = e; fails = refl })))

place_call-Ready :
    (fuel : ℕ) (b : Binder) (th : ℕ) (one_way : Bool) (f : Found)
    → Ready b f
    → StackOf b.txns (b.threads th).transaction_stack fuel
    → Ends (Ready b) (place_call fuel th one_way f)
unfolding place_call
place_call-Ready fuel b th one_way (b', held, some e) k s = ended k
place_call-Ready fuel b th one_way (b', held, none) k s =
    if_both (Ends (Ready b)) one_way
      (ended (record { calm = k.calm; no_reply = k.no_reply; fails = tt }))
      (Ends-option held.target_proc (λ p. nest_call-Ready fuel b b' held th p k.calm k.no_reply s))

-- A call finds its target, or an error, with fuel for the transactions on the stack of its thread.
pub call_target-Ready :
    (k : SendKernel) (fuel : ℕ) (b : Binder) (th : ℕ) (tr : TransactionData)
    → StackOf b.txns (b.threads th).transaction_stack fuel
    → Ends (Ready b) (call_target k fuel b th tr)
unfolding call_target
call_target-Ready k fuel b th tr s =
    let p = (b.threads th).proc in
    Ends-Always _
      (if_both (Always (Ready b)) (tr.handle == 0) (manager_target-Ready b p)
        (handle_target-Ready b p tr.handle))
      (λ f r.
        place_call-Ready fuel b th tr.one_way _
          (allow_transaction-Ready b k.may_transact _ (refuse_own-Ready b p f r)) s)

-- The transaction is not in the heap.
abbrev pub IsGone : SendKernel → (ℕ → Option BinderTransaction) → Type 0
IsGone k h = (t : ℕ) → k.kzalloc_t ≡ some t → h t ≡ none

-- The thread is told of a failure, and nothing is left of the transaction.
pub record Refused (k : SendKernel) (th : ℕ) (b : Binder) : Type 0 where
  pub failed : is_failure (b.threads th).return_error ≡ true
  pub queued : has_work (return_error_work th) (b.threads th).todo ≡ true
  pub gone : IsGone k b.txns

pub forgotten :
    (k : SendKernel) (t : ℕ) (b : Binder) → k.kzalloc_t ≡ some t → IsGone k (forget_txn t b).txns
forgotten k t b q u e = let same : u ≡ t = cc in rw same (write_self t none b.txns)

tell-Refused :
    (k : SendKernel) (b : Binder) (th : ℕ) (code : Reply)
    → is_failure code ≡ true
    → IsGone k b.txns
    → Refused k th (tell b th code)
unfolding binder_enqueue_thread_work binder_enqueue_work
tell-Refused k b th code h g =
    let b1 = set_thread b th (record (b.threads th) { return_error = code }) in
    let w = return_error_work th in
    let at_th : (tell b th code).threads th ≡ with_work w (b1.threads th) =
      ap (λ f. f th) (binder_enqueue_thread_work-Changes b1 th w).threads
      ∙ write_self th (with_work w (b1.threads th)) b1.threads in
    let first : b1.threads th ≡ record (b.threads th) { return_error = code } =
      write_self th (record (b.threads th) { return_error = code }) b.threads in
    record {
      failed = ap (λ x. is_failure x.return_error) (at_th ∙ ap (with_work w) first) ∙ h;
      queued =
          ap (λ x. has_work w x.todo) at_th ∙ has_work-last w (b1.threads th).todo (==_refl th);
      gone = g;
    }

module _ (rb : RbLib) where
  pub drop_thread-Calm : (b : Binder) (o : Option ℕ) → Ends (Calm b) (drop_thread rb b o)
  unfolding drop_thread
  drop_thread-Calm b none = ended (stay b)
  drop_thread-Calm b (some u) = binder_thread_dec_tmpref-Calm rb b u

  pub drop_proc-Calm : (b : Binder) (o : Option ℕ) → Ends (Calm b) (drop_proc rb b o)
  unfolding drop_proc
  drop_proc-Calm b none = ended (stay b)
  drop_proc-Calm b (some p) = binder_proc_dec_tmpref-Calm rb b p

  pub put_node-Calm : (b : Binder) (o : Option ℕ) → Always (Calm b) (put_node rb b o)
  unfolding put_node
  put_node-Calm b none = gives (stay b)
  put_node-Calm b (some n) = binder_dec_node_tmpref-Calm rb b n

  drop_target_node-Calm : (b : Binder) (o : Option ℕ) → Always (Calm b) (drop_target_node rb b o)
  unfolding drop_target_node
  drop_target_node-Calm b none = gives (stay b)
  drop_target_node-Calm b (some n) =
      Always-bind _ (binder_dec_node-Calm rb b n true false)
        (λ b' k. Always-map (binder_dec_node_tmpref-Calm rb b' n) (λ b'' l. Calm-trans k l))

  -- What is held is given back, and nothing else changes.
  pub give_back-Calm :
      (b : Binder) (u p : Option ℕ) (f : Binder → Run Binder)
      → ((b' : Binder) → Always (Calm b') (f b'))
      → Ends (Calm b) (drop_thread rb b u >>=? λ b1. drop_proc rb b1 p >>=? λ b2. done (f b2))
  give_back-Calm b u p f h = Ends-bind (drop_thread-Calm b u) (λ b1 k1.
      Ends-bind (drop_proc-Calm b1 p)
        (λ b2 k2. Ends-map (Ends-done (h b2)) (λ b3 k3. Calm-trans k1 (Calm-trans k2 k3))))

  pub fail_early-Refused :
      (k : SendKernel) (fuel : ℕ) (b : Binder) (th : ℕ) (held : Held) (code : Reply)
      → held.in_reply_to ≡ none
      → is_failure code ≡ true
      → IsGone k b.txns
      → Ends (Refused k th) (fail_early rb fuel b th held code)
  unfolding fail_early drop_held report_failure
  fail_early-Refused k fuel b th held code e h g =
      Ends-bind
        (give_back-Calm b held.target_thread held.target_proc
          (λ b2. drop_target_node rb b2 held.target_node)
          (λ b2. drop_target_node-Calm b2 held.target_node))
        (λ b' c. Ends-bug_on (not (is_ok (b'.threads th).return_error)) (
          Ends-none held.in_reply_to _ e
            (ended (tell-Refused k b' th code h (λ t q. ap (λ f. f t) c.txns ∙ g t q)))))

  pub fail_late-Refused :
      (k : SendKernel) (fuel : ℕ) (s : Sending) (c : Carried) (bp : BufferPtr) (t failed_at : ℕ)
      (code : Reply)
      → s.held.in_reply_to ≡ none
      → is_failure code ≡ true
      → k.kzalloc_t ≡ some t
      → Ends (λ r. Refused k s.thread r.0) (fail_late rb fuel k s c bp t failed_at code)
  unfolding fail_late
  fail_late-Refused k fuel s c bp t failed_at code e h q =
      Ends-done-any (release_sent rb k c bp s.held failed_at) (λ r.
        Ends-bind
          (fail_early-Refused k fuel (forget_txn t r.0) s.thread
            (record s.held { target_node = none }) code e h (forgotten k t r.0 q))
          (λ b' x. ended x))
