-- ===== src/Driver/Transaction/FailedReply.antt =====
-- `binder_send_failed_reply`: who is told that a transaction failed.
use headless_testing.Base.{
  ℕ, zero, suc, ◌≤◌, ◌≡◌, refl, ◌∙◌, ap, sym, arith, length, not, Option, none, some, List, [], ◌∷◌,
  ◌++◌, inc32, subst,
}
use headless_testing.Kernel.{
  Ends, ended, Ends-bind, Ends-bug_on, Ends-done, Ends-map, Ends-option, Ends-some, Ends-none,
  Ends-split, Always, gives, Always-bug_on, Always-some, Always-some,
}
use headless_testing.RbTree.{RbLib}
use headless_testing.Driver.State.{Binder, BinderTransaction, Reply, BufferPtr, write}
use headless_testing.Driver.Heap.{write_self, write-write}
use headless_testing.Driver.Lifetime.{inc_proc, inc_thread}
use headless_testing.Driver.Lifetime.Frees.{
  LeavesThreads, lower_tmp_ref, binder_proc_dec_tmpref-Ends, binder_thread_dec_tmpref-Ends,
}
use headless_testing.Driver.Transaction.{
  binder_pop_transaction, binder_free_transaction, set_reply_error, fail_sender, failed_reply_loop,
  binder_send_failed_reply, set_buffer_txn, is_top,
}
use headless_testing.Driver.Transaction.Told.{
  told_error, told_work, IsTold, popped, told, Changes, Changes-twice, set_reply_error-Changes,
  set_reply_error-txns, IsTold-told,
}

-- Where a failed reply goes: to nobody, or to a thread whose stack's next transaction is given.
pub data Goal : Type 0 where
  nobody : Goal
  sender : ℕ → Option ℕ → Goal

-- The transactions from one on, each made in the next, up to the first whose sender is alive. The
-- heap is without the ones before, so that none occurs twice.
pub data Chain : (ℕ → Option BinderTransaction) → ℕ → List ℕ → Goal → Type 0 where
  root :
      {h : ℕ → Option BinderTransaction} {t : ℕ} {tx : BinderTransaction}
      → h t ≡ some tx
      → tx.from ≡ none
      → tx.from_parent ≡ none
      → Chain h t (t ∷ []) nobody
  live :
      {h : ℕ → Option BinderTransaction} {t th : ℕ} {tx : BinderTransaction}
      → h t ≡ some tx
      → tx.from ≡ some th
      → Chain h t (t ∷ []) (sender th tx.from_parent)
  dead :
      {h : ℕ → Option BinderTransaction} {t u : ℕ} {ts : List ℕ} {g : Goal} {tx : BinderTransaction}
      → h t ≡ some tx
      → tx.from ≡ none
      → tx.from_parent ≡ some u
      → Chain (write t none h) u ts g
      → Chain h t (t ∷ ts) g

-- A heap without the given objects.
abbrev pub without : {A : Type 0} → List ℕ → (ℕ → Option A) → ℕ → Option A
without [] h = h
without (t ∷ ts) h = without ts (write t none h)

abbrev pub Reaches : Goal → Reply → Binder → Binder → Type 0
Reaches nobody code b b' = b'.threads ≡ b.threads
Reaches (sender th next) code b b' = IsTold th next code b b'

-- A failed reply that has been dealt with.
pub record Fails (ts : List ℕ) (g : Goal) (code : Reply) (b b' : Binder) : Type 0 where
  pub freed : b'.txns ≡ without ts b.txns
  pub reached : Reaches g code b b'

-- `t` is freed.
record Frees (t : ℕ) (b b' : Binder) : Type 0 where
  pub txns : b'.txns ≡ write t none b.txns
  pub threads : b'.threads ≡ b.threads

record Pops (th t : ℕ) (tx : BinderTransaction) (b b' : Binder) : Type 0 where
  pub txns : b'.txns ≡ write t (some (record tx { from = none })) b.txns
  pub threads :
      b'.threads ≡ write th (record (b.threads th) { transaction_stack = tx.from_parent }) b.threads

set_buffer_txn-txns :
    (b : Binder) (o : Option BufferPtr) (t : Option ℕ) → LeavesThreads b (set_buffer_txn b o t)
set_buffer_txn-txns b none t = record { txns = refl; threads = refl }
set_buffer_txn-txns b (some bp) t = record { txns = refl; threads = refl }

Reaches-same :
    (g : Goal) (code : Reply) (b b' b'' : Binder)
    → b'.threads ≡ b.threads
    → Reaches g code b' b''
    → Reaches g code b b''
Reaches-same nobody code b b' b'' e k = k ∙ e
Reaches-same (sender th next) code b b' b'' e k = record {
  stack = k.stack;
  error = k.error ∙ ap (λ x. told_error (x th).reply_error code) e;
  queued = k.queued ∙ ap (λ x. (x th).todo ++ told_work (x th).reply_error th) e;
  others = λ u n. k.others u n ∙ ap (λ x. x u) e;
}

after_free :
    (b b' b'' : Binder) (t : ℕ) (ts : List ℕ) (g : Goal) (code : Reply)
    → Frees t b b'
    → Fails ts g code b' b''
    → Fails (t ∷ ts) g code b b''
after_free b b' b'' t ts g code k l = record {
  freed = l.freed ∙ ap (without ts) k.txns;
  reached = Reaches-same g code b b' b'' k.threads l.reached;
}

module _ (rb : RbLib) where
  binder_free_transaction-Ends :
      (b : Binder) (t : ℕ) → Ends (Frees t b) (binder_free_transaction rb b t)
  unfolding binder_free_transaction
  binder_free_transaction-Ends b t = Ends-option (b.txns t) (λ tx.
      Ends-split tx.to_proc (ended (record { txns = refl; threads = refl })) (λ p.
        let unlinked = set_buffer_txn-txns (inc_proc b p) tx.buffer none in
        Ends-bind (binder_proc_dec_tmpref-Ends rb (set_buffer_txn (inc_proc b p) tx.buffer none) p)
          (λ b' k. ended (record {
            txns = ap (write t none) (k.txns ∙ unlinked.txns);
            threads = k.threads ∙ unlinked.threads;
          }))))

  binder_pop_transaction-Pops :
      (b : Binder) (th t : ℕ) (tx : BinderTransaction)
      → b.txns t ≡ some tx
      → Always (Pops th t tx b) (binder_pop_transaction b th t)
  unfolding binder_pop_transaction
  binder_pop_transaction-Pops b th t tx e = Always-some (b.txns t) _ _ e (
      Always-bug_on (not (is_top (b.threads th).transaction_stack t))
        (Always-bug_on (not (is_top tx.from th)) (gives (record { txns = refl; threads = refl }))))

  -- The sender is alive.
  fail_sender-Ends :
      (b : Binder) (t th : ℕ) (tx : BinderTransaction) (code : Reply)
      → b.txns t ≡ some tx
      → Ends (Fails (t ∷ []) (sender th tx.from_parent) code b) (fail_sender rb b t th code)
  unfolding fail_sender
  fail_sender-Ends b t th tx code e =
      Ends-bind (Ends-done (binder_pop_transaction-Pops (inc_thread b th) th t tx e)) (λ b1 pop.
        let r = (b1.threads th).reply_error in
        let b2 = set_reply_error b1 th code in
        Ends-bind (binder_thread_dec_tmpref-Ends rb b2 th) (λ b3 low.
          Ends-map (binder_free_transaction-Ends b3 t) (λ b4 free.
            let popped_b : Changes th (popped tx.from_parent) b b1 =
              Changes-twice th (λ x. record x { tmp_ref = inc32 x.tmp_ref })
                (λ x. record x { transaction_stack = tx.from_parent }) b (inc_thread b th) b1
                (record { threads = refl }) (record { threads = pop.threads }) in
            let told_b : Changes th (λ x. told th code r (popped tx.from_parent x)) b b2 =
              Changes-twice th (popped tx.from_parent) (told th code r) b b1 b2 popped_b
                (set_reply_error-Changes b1 th code r refl) in
            let all_b : Changes th (λ x. lower_tmp_ref (told th code r (popped tx.from_parent x))) b
                b3 =
              Changes-twice th (λ x. told th code r (popped tx.from_parent x)) lower_tmp_ref b b2 b3
                told_b (record { threads = low.threads }) in
            let same : r ≡ (b.threads th).reply_error =
              ap (λ h. (h th).reply_error) popped_b.threads
              ∙ ap (λ x. x.reply_error)
                  (write_self th (popped tx.from_parent (b.threads th)) b.threads) in
            let kept : b3.txns ≡ write t (some (record tx { from = none })) b.txns =
              low.txns ∙ set_reply_error-txns b1 th code r refl ∙ pop.txns in
            record {
              freed =
                  free.txns
                  ∙ ap (write t none) kept
                  ∙ write-write t none (some (record tx { from = none })) b.txns;
              reached = IsTold-told th tx.from_parent code b b4 (
                  free.threads
                  ∙ all_b.threads
                  ∙ ap
                      (λ q.
                        write th
                          (lower_tmp_ref (told th code q (popped tx.from_parent (b.threads th))))
                          b.threads)
                      same);
            })))

  failed_reply_loop-Ends :
      (fuel : ℕ) (b : Binder) (t : ℕ) (ts : List ℕ) (g : Goal) (code : Reply)
      → Chain b.txns t ts g
      → length ts ≤ fuel
      → Ends (Fails ts g code b) (failed_reply_loop rb fuel b t code)
  unfolding failed_reply_loop
  failed_reply_loop-Ends zero b t _ g code (root e f p) h = absurd (omega (arith, h))
  failed_reply_loop-Ends zero b t _ g code (live e f) h = absurd (omega (arith, h))
  failed_reply_loop-Ends zero b t _ g code (dead e f p c) h = absurd (omega (arith, h))
  failed_reply_loop-Ends (suc fuel) b t _ _ code (root {tx = tx} e f p) h =
      Ends-some (b.txns t) _ _ e (
        Ends-none tx.from _ f (
          Ends-bind (binder_free_transaction-Ends b t) (λ b' k.
            Ends-none tx.from_parent _ p (ended (record { freed = k.txns; reached = k.threads })))))
  failed_reply_loop-Ends (suc fuel) b t _ _ code (live {th = th} {tx = tx} e f) h =
      Ends-some (b.txns t) _ _ e (Ends-some tx.from _ _ f (fail_sender-Ends b t th tx code e))
  failed_reply_loop-Ends (suc fuel) b t _ g code (dead {u = u} {ts = ts} {tx = tx} e f p c) h =
      Ends-some (b.txns t) _ _ e (
        Ends-none tx.from _ f (
          Ends-bind (binder_free_transaction-Ends b t) (λ b' k. Ends-some tx.from_parent _ _ p (
            Ends-map
              (failed_reply_loop-Ends fuel b' u ts g code
                (subst (λ x. Chain x u ts g) (sym k.txns) c) (omega (arith, h)))
              (λ b'' l. after_free b b' b'' t ts g code k l)))))

  -- If the transactions from `t` on are a chain that ends with a live sender or at the root, and the
  -- fuel is at least its length, a failed reply ends: unless it stops at a BUG, exactly the
  -- transactions of the chain are freed, and the first live sender's thread, and no other, is told
  -- of the error, unless it has one that is not delivered, with the next transaction on top of its
  -- stack.
  pub binder_send_failed_reply-Ends :
      (fuel : ℕ) (b : Binder) (t : ℕ) (ts : List ℕ) (g : Goal) (code : Reply)
      → Chain b.txns t ts g
      → length ts ≤ fuel
      → Ends (Fails ts g code b) (binder_send_failed_reply rb fuel b t code)
  unfolding binder_send_failed_reply
  binder_send_failed_reply-Ends fuel b t ts g code c h =
      Ends-option (b.txns t)
        (λ tx. Ends-bug_on tx.one_way (failed_reply_loop-Ends fuel b t ts g code c h))
