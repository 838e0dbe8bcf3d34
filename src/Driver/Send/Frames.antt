-- ===== src/Driver/Send/Frames.antt =====
-- What the bookkeeping around a transaction leaves as it was: transactions, the stacks of threads,
-- and completions that are queued.
use headless_testing.Base.{
  ℕ, ◌≡◌, refl, sym, ap, ◌∙◌, subst, Bool, true, false, ◌&&◌, ◌||◌, Option, none, some, List, [],
  ◌∷◌, ◌++◌, ◌==◌, arith, Bool-cases, inl, inr, if_both, is_some, dec32, inc32, erase, leb, ◌^◌,
}
use headless_testing.Kernel.{
  Always, stops, gives, Always-bind, Always-bug_on, Always-map, Always-option, Ends, Ends-map,
}
use headless_testing.RbTree.{RbLib}
use headless_testing.Driver.State.{
  Binder, BinderThread, BinderNode, Work, WorkList, proc_todo, thread_todo, async_todo,
  delivered_death, transaction_complete, transaction_work, node_work, death_work, return_error_work,
  reply_error_work, same_work, set_node, set_proc, write,
}
use headless_testing.Driver.Work.{
  remove_work, binder_dequeue_work, binder_enqueue_work, binder_wakeup_proc, binder_wakeup_thread,
  binder_select_thread, binder_wakeup_poll_threads,
}
use headless_testing.Driver.Node.{
  notify_owner, unlink_node, drop_node, binder_dec_node_nilocked, binder_dec_node,
  binder_dec_node_tmpref, free_if, binder_free_node, still_held, unreferenced, dec_counts,
  binder_inc_node, binder_inc_node_tmpref, inc_strong,
}
use headless_testing.Driver.Lifetime.{binder_proc_dec_tmpref, binder_thread_dec_tmpref, inc_proc}
use headless_testing.Driver.Lifetime.Frees.{
  lower_tmp_ref, binder_proc_dec_tmpref-Ends, binder_thread_dec_tmpref-Ends,
}
use headless_testing.Driver.Transaction.{binder_get_node_refs_for_txn}

-- Is the work on the list?
abbrev pub has_work : Work → List Work → Bool
has_work w [] = false
has_work w (v ∷ vs) = same_work v w || has_work w vs

pub has_work-append :
    (w : Work) (xs ys : List Work) → has_work w xs ≡ true → has_work w (xs ++ ys) ≡ true
has_work-append w [] ys h = absurd (cc)
has_work-append w (x ∷ xs) ys h = elim (Bool-cases (same_work x w)) [
  | inl e ↦ rw e refl
  | inr e ↦ rw e (has_work-append w xs ys (rw e at h))
]

pub has_work-last :
    (w : Work) (xs : List Work) → same_work w w ≡ true → has_work w (xs ++ w ∷ []) ≡ true
has_work-last w [] h = rw h refl
has_work-last w (x ∷ xs) h = elim (Bool-cases (same_work x w)) [
  | inl e ↦ rw e refl
  | inr e ↦ rw e (has_work-last w xs h)
]

-- The work of a node does not complete a transaction.
other_work :
    (v : Work) (tc n : ℕ)
    → same_work v (node_work n) ≡ true
    → same_work v (transaction_complete tc) ≡ false
other_work (transaction_work a) tc n h = absurd (cc)
other_work (transaction_complete a) tc n h = absurd (cc)
other_work (node_work a) tc n h = refl
other_work (death_work a) tc n h = absurd (cc)
other_work (return_error_work a) tc n h = absurd (cc)
other_work (reply_error_work a) tc n h = absurd (cc)

has_work-remove :
    (tc n : ℕ) (xs : List Work)
    → has_work (transaction_complete tc) xs ≡ true
    → has_work (transaction_complete tc) (remove_work (node_work n) xs) ≡ true
has_work-remove tc n [] h = absurd (cc)
has_work-remove tc n (x ∷ xs) h = elim (Bool-cases (same_work x (node_work n))) [
  | inl e ↦ rw e (rw (other_work x tc n e) at h)
  | inr e ↦ rw e (elim (Bool-cases (same_work x (transaction_complete tc))) [
    | inl f ↦ rw f refl
    | inr f ↦ rw f (has_work-remove tc n xs (rw f at h))
  ])
]

-- A thread that may have more work, but the same stack and all its completions.
pub record KeepsThread (x y : BinderThread) : Type 0 where
  pub stack : y.transaction_stack ≡ x.transaction_stack
  pub completes :
      (tc : ℕ)
      → has_work (transaction_complete tc) x.todo ≡ true
      → has_work (transaction_complete tc) y.todo ≡ true

pub record Keeps (b b' : Binder) : Type 0 where
  pub at : (th : ℕ) → KeepsThread (b.threads th) (b'.threads th)

abbrev pub kept_thread : (x : BinderThread) → KeepsThread x x
kept_thread x = record { stack = refl; completes = λ tc h. h }

pub Keeps-same : (b b' : Binder) → b'.threads ≡ b.threads → Keeps b b'
Keeps-same b b' e = record {
  at = λ th.
      subst (KeepsThread (b.threads th)) (sym (ap (λ h. h th) e)) (kept_thread (b.threads th));
}

pub Keeps-trans : {b b' b'' : Binder} → Keeps b b' → Keeps b' b'' → Keeps b b''
Keeps-trans k l = record {
  at = λ th. record {
    stack = (l.at th).stack ∙ (k.at th).stack;
    completes = λ tc h. (l.at th).completes tc ((k.at th).completes tc h);
  };
}

-- One thread is written.
pub Keeps-write :
    (b b' : Binder) (t : ℕ) (x : BinderThread)
    → b'.threads ≡ write t x b.threads
    → KeepsThread (b.threads t) x
    → Keeps b b'
Keeps-write b b' t x e k = record {
  at = λ th.
      subst (KeepsThread (b.threads th)) (sym (ap (λ h. h th) e)) (elim (Bool-cases (th == t)) [
        | inl s ↦ let same : th ≡ t = ground (arith, s) in rw (s, same) k
        | inr s ↦ rw s (kept_thread (b.threads th))
      ]);
}

-- Transactions stay too.
pub record Calm (b b' : Binder) : Type 0 where
  pub txns : b'.txns ≡ b.txns
  pub keeps : Keeps b b'

pub Calm-same : (b b' : Binder) → b'.txns ≡ b.txns → b'.threads ≡ b.threads → Calm b b'
Calm-same b b' e f = record { txns = e; keeps = Keeps-same b b' f }

pub Calm-trans : {b b' b'' : Binder} → Calm b b' → Calm b' b'' → Calm b b''
Calm-trans k l = record { txns = l.txns ∙ k.txns; keeps = Keeps-trans k.keeps l.keeps }

pub binder_wakeup_thread-Calm :
    (b : Binder) (p : ℕ) (o : Option ℕ) (sync : Bool) → Calm b (binder_wakeup_thread b p o sync)
unfolding binder_wakeup_thread binder_wakeup_poll_threads
binder_wakeup_thread-Calm b p none sync = Calm-same b _ refl refl
binder_wakeup_thread-Calm b p (some t) sync = Calm-same b _ refl refl

binder_wakeup_proc-Calm : (b : Binder) (p : ℕ) → Calm b (binder_wakeup_proc b p)
unfolding binder_wakeup_proc binder_select_thread
binder_wakeup_proc-Calm b p =
    let chosen = binder_select_thread b p in
    Calm-trans (Calm-same b chosen.0 refl refl)
      (binder_wakeup_thread-Calm chosen.0 p chosen.1 false)

notify_owner-Calm : (b : Binder) (n : ℕ) (nd : BinderNode) (p : ℕ) → Calm b (notify_owner b n nd p)
unfolding notify_owner binder_enqueue_work
notify_owner-Calm b n nd p =
    let queued =
      set_node (binder_enqueue_work b (node_work n) (proc_todo p)) n
        (record nd { work_entry = some (proc_todo p) }) in
    if_both (Calm b) (is_some nd.work_entry) (Calm-same b b refl refl)
      (Calm-trans (Calm-same b queued refl refl) (binder_wakeup_proc-Calm queued p))

dequeue_node-Calm :
    (b : Binder) (n : ℕ) (o : Option WorkList) → Calm b (binder_dequeue_work b (node_work n) o)
unfolding binder_dequeue_work
dequeue_node-Calm b n none = Calm-same b b refl refl
dequeue_node-Calm b n (some (proc_todo p)) =
    Calm-same b (binder_dequeue_work b (node_work n) (some (proc_todo p))) refl refl
dequeue_node-Calm b n (some (async_todo m)) =
    Calm-same b (binder_dequeue_work b (node_work n) (some (async_todo m))) refl refl
dequeue_node-Calm b n (some (delivered_death p)) =
    Calm-same b (binder_dequeue_work b (node_work n) (some (delivered_death p))) refl refl
dequeue_node-Calm b n (some (thread_todo t)) = record {
  txns = refl;
  keeps =
      Keeps-write b (binder_dequeue_work b (node_work n) (some (thread_todo t))) t
        (record (b.threads t) { todo = remove_work (node_work n) (b.threads t).todo }) refl
        (record { stack = refl; completes = λ tc h. has_work-remove tc n (b.threads t).todo h });
}

module _ (rb : RbLib) where
  unlink_node-Calm :
      (b : Binder) (n : ℕ) (nd : BinderNode) (o : Option ℕ)
      → Always (Calm b) (unlink_node rb b n nd o)
  unfolding unlink_node
  unlink_node-Calm b n nd none =
      Always-bug_on (is_some nd.work_entry)
        (gives (Calm-same b (record b { dead_nodes = erase n b.dead_nodes }) refl refl))
  unlink_node-Calm b n nd (some p) =
      let off = dequeue_node-Calm b n nd.work_entry in
      let gone = binder_dequeue_work b (node_work n) nd.work_entry in
      let pr = gone.procs p in
      let unlinked =
        set_node (set_proc gone p (record pr { nodes = rb.rb_erase n pr.nodes })) n
          (record nd { work_entry = none }) in
      gives (Calm-trans off (Calm-same gone unlinked refl refl))

  drop_node-Calm :
      (b : Binder) (n : ℕ) (nd : BinderNode) → Always (λ r. Calm b r.0) (drop_node rb b n nd)
  unfolding drop_node
  drop_node-Calm b n nd =
      if_both (Always (λ r. Calm b r.0)) (is_some nd.proc && (nd.has_strong_ref || nd.has_weak_ref))
        (Always-option nd.proc stops (λ p e. gives (notify_owner-Calm b n nd p)))
        (if_both (Always (λ r. Calm b r.0)) (unreferenced nd)
          (Always-bind _ (unlink_node-Calm b n nd nd.proc) (λ b' k. gives k))
          (gives (Calm-same b b refl refl)))

  binder_dec_node_nilocked-Calm :
      (b : Binder) (n : ℕ) (strong internal : Bool)
      → Always (λ r. Calm b r.0) (binder_dec_node_nilocked rb b n strong internal)
  unfolding binder_dec_node_nilocked
  binder_dec_node_nilocked-Calm b n strong internal = Always-option (b.nodes n) stops (λ nd e.
      let nd' = dec_counts nd strong internal in
      let same = Calm-same b (set_node b n nd') refl refl in
      if_both (Always (λ r. Calm b r.0)) (still_held nd' strong) (gives same)
        (Always-map (drop_node-Calm (set_node b n nd') n nd') (λ r k. Calm-trans same k)))

  free_if-Calm :
      (n : ℕ) (b : Binder) (free_node : Bool) → Always (Calm b) (free_if n (b, free_node))
  free_if-Calm n b true = gives (Calm-same b (binder_free_node b n) refl refl)
  free_if-Calm n b false = gives (Calm-same b b refl refl)

  pub binder_dec_node-Calm :
      (b : Binder) (n : ℕ) (strong internal : Bool)
      → Always (Calm b) (binder_dec_node rb b n strong internal)
  unfolding binder_dec_node
  binder_dec_node-Calm b n strong internal =
      Always-bind (free_if n) (binder_dec_node_nilocked-Calm b n strong internal)
        (λ r k. Always-map (free_if-Calm n r.0 r.1) (λ b' l. Calm-trans k l))

  pub binder_dec_node_tmpref-Calm :
      (b : Binder) (n : ℕ) → Always (Calm b) (binder_dec_node_tmpref rb b n)
  unfolding binder_dec_node_tmpref
  binder_dec_node_tmpref-Calm b n = Always-option (b.nodes n) stops (λ nd e.
      let tmp = dec32 nd.tmp_refs in
      let b' = set_node b n (record nd { tmp_refs = tmp }) in
      Always-bug_on (leb (2 ^ 31) tmp) (
        Always-bind (free_if n) (binder_dec_node_nilocked-Calm b' n false true) (λ r k.
          Always-map (free_if-Calm n r.0 r.1)
            (λ b'' l. Calm-trans (Calm-same b b' refl refl) (Calm-trans k l)))))

  pub binder_proc_dec_tmpref-Calm :
      (b : Binder) (p : ℕ) → Ends (Calm b) (binder_proc_dec_tmpref rb b p)
  binder_proc_dec_tmpref-Calm b p =
      Ends-map (binder_proc_dec_tmpref-Ends rb b p) (λ b' k. Calm-same b b' k.txns k.threads)

  pub binder_thread_dec_tmpref-Calm :
      (b : Binder) (t : ℕ) → Ends (Calm b) (binder_thread_dec_tmpref rb b t)
  binder_thread_dec_tmpref-Calm b t = Ends-map (binder_thread_dec_tmpref-Ends rb b t) (λ b' k.
      record {
        txns = k.txns;
        keeps =
            Keeps-write b b' t (lower_tmp_ref (b.threads t)) k.threads
              (record { stack = refl; completes = λ tc h. h });
      })

inc_local-Calm :
    (b : Binder) (n : ℕ) → Always (λ r. Calm b r.0) (binder_inc_node b n true false none)
unfolding binder_inc_node inc_strong
inc_local-Calm b n = Always-option (b.nodes n) stops (λ nd e. gives (
    Calm-same b (set_node b n (record nd { local_strong_refs = inc32 nd.local_strong_refs })) refl
      refl))

binder_inc_node_tmpref-Calm : (b : Binder) (n : ℕ) → Always (Calm b) (binder_inc_node_tmpref b n)
unfolding binder_inc_node_tmpref
binder_inc_node_tmpref-Calm b n = Always-option (b.nodes n) stops (λ nd e.
    gives (Calm-same b (set_node b n (record nd { tmp_refs = inc32 nd.tmp_refs })) refl refl))

-- The references that are taken on the target.
pub binder_get_node_refs_for_txn-Calm :
    (b : Binder) (n : ℕ) → Always (λ r. Calm b r.0) (binder_get_node_refs_for_txn b n)
unfolding binder_get_node_refs_for_txn
binder_get_node_refs_for_txn-Calm b n = Always-option (b.nodes n) stops (λ nd e.
    Always-option nd.proc (gives (Calm-same b b refl refl)) (λ p f.
      Always-bind _ (inc_local-Calm b n) (λ r k.
        Always-bind _ (binder_inc_node_tmpref-Calm r.0 n) (λ held l.
          gives (Calm-trans k (Calm-trans l (Calm-same held (inc_proc held p) refl refl)))))))
