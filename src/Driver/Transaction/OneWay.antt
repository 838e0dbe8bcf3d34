-- ===== src/Driver/Transaction/OneWay.antt =====
-- One-way transactions to a node are handed out in order, one at a time.
use headless_testing.Base.{
  ℕ, arith, ◌≡◌, refl, ◌∙◌, ap, sym, Bool, true, false, ◌||◌, if◌then◌else◌, map, Option, none,
  some, List, [], ◌∷◌, ◌++◌, if_both,
}
use headless_testing.Kernel.{Always, gives, Always-guard, Always-some}
use headless_testing.Driver.State.{
  Binder, BinderNode, BinderTransaction, Work, transaction_work, set_node, proc_todo, async_todo,
}
use headless_testing.Driver.Work.{
  binder_enqueue_work, binder_enqueue_thread_work, binder_select_thread, binder_wakeup_thread,
  binder_wakeup_poll_threads, binder_wakeup_proc, binder_dequeue_work_head, other_waiting,
  first_waiting, set_work,
}
use headless_testing.Driver.Heap.{write_self}
use headless_testing.Driver.Transaction.Told.{binder_enqueue_thread_work-Changes, with_work}
use headless_testing.Driver.Transaction.{lend_priority}
use headless_testing.Driver.Transaction.{
  send_to_node, choose_thread, queue_transaction, next_one_way, is_top,
}

-- Nodes and their waiting one-way transactions are untouched.
record SameLanes (b b' : Binder) : Type 0 where
  pub nodes : b'.nodes ≡ b.nodes
  pub async : b'.async ≡ b.async

choose_thread-SameLanes :
    (b : Binder) (p : ℕ) (pending : Bool) → SameLanes b (choose_thread b p none pending).0
unfolding choose_thread binder_select_thread
choose_thread-SameLanes b p true = record { nodes = refl; async = refl }
choose_thread-SameLanes b p false = record { nodes = refl; async = refl }

-- To wake a thread changes no queue.
record SameQueues (b b' : Binder) : Type 0 where
  pub lanes : SameLanes b b'
  pub procs : b'.procs ≡ b.procs
  pub threads : b'.threads ≡ b.threads

binder_wakeup_thread-SameQueues :
    (b : Binder) (p : ℕ) (o : Option ℕ) (sync : Bool)
    → SameQueues b (binder_wakeup_thread b p o sync)
unfolding binder_wakeup_thread binder_wakeup_poll_threads
binder_wakeup_thread-SameQueues b p none sync = record {
  lanes = record { nodes = refl; async = refl };
  procs = refl;
  threads = refl;
}
binder_wakeup_thread-SameQueues b p (some th) sync = record {
  lanes = record { nodes = refl; async = refl };
  procs = refl;
  threads = refl;
}

choose_thread-todo :
    (b : Binder) (p : ℕ) → ((choose_thread b p none false).0.procs p).todo ≡ (b.procs p).todo
unfolding choose_thread binder_select_thread
choose_thread-todo b p =
    let ts = other_waiting (b.procs p).waiting_threads in
    ap (λ x. x.todo) (write_self p (record (b.procs p) { waiting_threads = ts }) b.procs)

choose_thread-threads : (b : Binder) (p : ℕ) → (choose_thread b p none false).0.threads ≡ b.threads
unfolding choose_thread binder_select_thread
choose_thread-threads b p = refl

-- The work is the last of the first of the threads that wait for work of process `p`, which no longer
-- waits; or it is the last of the process, if none of its threads waits, and no thread changes.
pub data HandsOver (p : ℕ) (w : Work) (b b' : Binder) : Type 0 where
  to_proc :
      (b.procs p).waiting_threads ≡ []
      → (b'.procs p).todo ≡ (b.procs p).todo ++ w ∷ []
      → b'.threads ≡ b.threads
      → HandsOver p w b b'
  to_thread :
      (th : ℕ) (ths : List ℕ)
      → (b.procs p).waiting_threads ≡ th ∷ ths
      → (b'.procs p).waiting_threads ≡ ths
      → (b'.threads th).todo ≡ (b.threads th).todo ++ w ∷ []
      → (b'.procs p).todo ≡ (b.procs p).todo
      → HandsOver p w b b'

queue_transaction-SameLanes :
    (b : Binder) (t : ℕ) (tx : BinderTransaction) (p : ℕ) (o : Option ℕ) (n : ℕ) (nd : BinderNode)
    → SameLanes b (queue_transaction b t tx p o n nd false)
unfolding queue_transaction binder_enqueue_work binder_enqueue_thread_work
queue_transaction-SameLanes b t tx p none n nd = record { nodes = refl; async = refl }
queue_transaction-SameLanes b t tx p (some th) n nd = record { nodes = refl; async = refl }

same_procs : (q : Binder) (u : ℕ) (v : Work) → (binder_enqueue_thread_work q u v).procs ≡ q.procs
unfolding binder_enqueue_thread_work binder_enqueue_work
same_procs q u v = refl

-- The transaction, queued for the first waiting thread of `ths` or for the process.
queued_for-HandsOver :
    (b c : Binder) (t : ℕ) (tx : BinderTransaction) (p n : ℕ) (nd : BinderNode) (ths : List ℕ)
    → (b.procs p).waiting_threads ≡ ths
    → (c.procs p).waiting_threads ≡ other_waiting ths
    → (c.procs p).todo ≡ (b.procs p).todo
    → c.threads ≡ b.threads
    → HandsOver p (transaction_work t) b (
        binder_wakeup_thread
          (queue_transaction c t tx p (first_waiting ths) n nd false)
          p
          (first_waiting ths)
          false)
unfolding queue_transaction binder_enqueue_work
queued_for-HandsOver b c t tx p n nd [] e f g h =
    let w = transaction_work t in
    let pr = record (c.procs p) { todo = (c.procs p).todo ++ w ∷ [] } in
    let after =
      binder_wakeup_thread-SameQueues (queue_transaction c t tx p none n nd false) p none false in
    to_proc e
      (ap (λ k. (k p).todo) after.procs
        ∙ ap (λ x. x.todo) (write_self p pr c.procs)
        ∙ ap (λ x. x ++ w ∷ []) g)
      (after.threads ∙ h)
queued_for-HandsOver b c t tx p n nd (th ∷ ths) e f g h =
    let w = transaction_work t in
    let lent = lend_priority c t tx th nd in
    let changes = binder_enqueue_thread_work-Changes lent th w in
    let after =
      binder_wakeup_thread-SameQueues (queue_transaction c t tx p (some th) n nd false) p (some th)
        false in
    to_thread th ths e (ap (λ k. (k p).waiting_threads) (after.procs ∙ same_procs lent th w) ∙ f)
      (ap (λ k. (k th).todo) after.threads
        ∙ ap (λ k. (k th).todo) changes.threads
        ∙ ap (λ x. x.todo) (write_self th (with_work w (c.threads th)) c.threads)
        ∙ ap (λ k. (k th).todo ++ w ∷ []) h)
      (ap (λ k. (k p).todo) (after.procs ∙ same_procs lent th w) ∙ g)

-- The node's flag is set. The work waits if it was set before, and is handed over if not.
pub record Sends (n p : ℕ) (w : Work) (nd : BinderNode) (b b' : Binder) : Type 0 where
  pub flagged : b'.nodes n ≡ some (record nd { has_async_transaction = true })
  pub waits : b'.async n ≡ (if nd.has_async_transaction then b.async n ++ w ∷ [] else b.async n)
  pub hands_over : nd.has_async_transaction ≡ false → HandsOver p w b b'
  pub keeps : nd.has_async_transaction ≡ true → (b'.procs ≡ b.procs) × (b'.threads ≡ b.threads)

-- What `binder_proc_transaction` does with the chosen thread, if nothing is on its way.
abbrev queue_and_wake : Binder → ℕ → BinderTransaction → ℕ → ℕ → BinderNode → Binder
queue_and_wake b t tx p n nd =
    let chosen = choose_thread b p none false in
    binder_wakeup_thread (queue_transaction chosen.0 t tx p chosen.1 n nd false) p chosen.1 false

queue_and_wake-SameLanes :
    (b : Binder) (t : ℕ) (tx : BinderTransaction) (p n : ℕ) (nd : BinderNode)
    → SameLanes b (queue_and_wake b t tx p n nd)
queue_and_wake-SameLanes b t tx p n nd =
    let chosen = choose_thread b p none false in
    let queued = queue_transaction chosen.0 t tx p chosen.1 n nd false in
    let woken = binder_wakeup_thread-SameQueues queued p chosen.1 false in
    let before = queue_transaction-SameLanes chosen.0 t tx p chosen.1 n nd in
    let first = choose_thread-SameLanes b p false in
    record {
      nodes = woken.lanes.nodes ∙ before.nodes ∙ first.nodes;
      async = woken.lanes.async ∙ before.async ∙ first.async;
    }

choose_thread-waiting :
    (b : Binder) (p : ℕ)
    → ((choose_thread b p none false).0.procs p).waiting_threads
      ≡ other_waiting (b.procs p).waiting_threads
unfolding choose_thread binder_select_thread
choose_thread-waiting b p =
    let ts = other_waiting (b.procs p).waiting_threads in
    ap (λ x. x.waiting_threads) (write_self p (record (b.procs p) { waiting_threads = ts }) b.procs)

queue_and_wake-HandsOver :
    (b : Binder) (t : ℕ) (tx : BinderTransaction) (p n : ℕ) (nd nd' : BinderNode)
    → HandsOver p (transaction_work t) b (queue_and_wake (set_node b n nd') t tx p n nd)
unfolding choose_thread binder_select_thread
queue_and_wake-HandsOver b t tx p n nd nd' =
    let b1 = set_node b n nd' in
    queued_for-HandsOver b (choose_thread b1 p none false).0 t tx p n nd (b.procs p).waiting_threads
      refl (choose_thread-waiting b1 p) (choose_thread-todo b1 p) (choose_thread-threads b1 p)

-- With success, a one-way transaction is sent as `Sends` says.
abbrev pub SentIf : ℕ → ℕ → Work → BinderNode → Binder → Binder × Bool → Type 0
SentIf n p w nd b (b', true) = Sends n p w nd b b'
SentIf n p w nd b (b', false) = Unit

-- If a one-way transaction for a node is queued without a given thread, and the driver does not stop
-- at a BUG, the node's flag is set; the transaction waits behind the node's others if the flag was
-- set before, with no process and no thread changed; and else it is the last work of the thread of
-- the process that is first on its list of waiting ones, or of the process if none waits.
pub send_to_node-Sends :
    (b : Binder) (t : ℕ) (tx : BinderTransaction) (p n : ℕ) (nd : BinderNode) (pending : Bool)
    → tx.one_way ≡ true
    → nd.has_async_transaction ≡ pending
    → Always (SentIf n p (transaction_work t) nd b) (send_to_node b t tx p none n nd)
unfolding send_to_node
send_to_node-Sends b t tx p n nd true e h =
    let w = transaction_work t in
    let waiting = b.async n ++ w ∷ [] in
    simp (e, h, send_to_node)
      (if_both (Always (SentIf n p w nd b)) ((b.procs p).is_dead || false) (gives tt) (
        gives (record {
          flagged = write_self n (some (record nd { has_async_transaction = true })) b.nodes;
          waits = write_self n waiting b.async ∙ sym (ap (λ c. if c then waiting else b.async n) h);
          hands_over = λ x. absurd (cc);
          keeps = λ x. (refl, refl);
        })))
send_to_node-Sends b t tx p n nd false e h =
    let w = transaction_work t in
    let nd' = record nd { has_async_transaction = true } in
    let same = queue_and_wake-SameLanes (set_node b n nd') t tx p n nd' in
    simp (e, h, send_to_node)
      (if_both (Always (SentIf n p w nd b)) ((b.procs p).is_dead || false) (gives tt) (
        gives (record {
          flagged = ap (λ x. x n) same.nodes ∙ write_self n (some nd') b.nodes;
          waits =
              ap (λ x. x n) same.async
              ∙ sym (ap (λ c. if c then b.async n ++ w ∷ [] else b.async n) h);
          hands_over = λ x. queue_and_wake-HandsOver b t tx p n nd' nd';
          keeps = λ x. absurd (cc);
        })))

abbrev pub works : List ℕ → List Work
works ts = map transaction_work ts

-- A transaction of the node is finished: the first that waits is the last work of the process, or
-- none is in flight. No thread gets work.
pub data Next (n p : ℕ) (nd : BinderNode) (b b' : Binder) : List ℕ → Type 0 where
  idle :
      b'.async n ≡ []
      → b'.nodes n ≡ some (record nd { has_async_transaction = false })
      → b'.procs ≡ b.procs
      → b'.threads ≡ b.threads
      → Next n p nd b b' []
  busy :
      {t : ℕ} {ts : List ℕ}
      → b'.async n ≡ works ts
      → b'.nodes n ≡ some nd
      → (b'.procs p).todo ≡ (b.procs p).todo ++ transaction_work t ∷ []
      → b'.threads ≡ b.threads
      → Next n p nd b b' (t ∷ ts)

binder_wakeup_proc-lanes : (b : Binder) (p : ℕ) → SameLanes b (binder_wakeup_proc b p)
unfolding binder_wakeup_proc binder_select_thread
binder_wakeup_proc-lanes b p =
    let chosen = binder_select_thread b p in
    let woken = (binder_wakeup_thread-SameQueues chosen.0 p chosen.1 false).lanes in
    record { nodes = woken.nodes; async = woken.async }

pub binder_wakeup_proc-todo :
    (b : Binder) (p : ℕ) → ((binder_wakeup_proc b p).procs p).todo ≡ (b.procs p).todo
unfolding binder_wakeup_proc binder_select_thread
binder_wakeup_proc-todo b p =
    let chosen = binder_select_thread b p in
    let ts = other_waiting (b.procs p).waiting_threads in
    ap (λ h. (h p).todo) (binder_wakeup_thread-SameQueues chosen.0 p chosen.1 false).procs
    ∙ ap (λ x. x.todo) (write_self p (record (b.procs p) { waiting_threads = ts }) b.procs)

binder_wakeup_proc-threads : (b : Binder) (p : ℕ) → (binder_wakeup_proc b p).threads ≡ b.threads
unfolding binder_wakeup_proc binder_select_thread
binder_wakeup_proc-threads b p =
    let chosen = binder_select_thread b p in
    (binder_wakeup_thread-SameQueues chosen.0 p chosen.1 false).threads

-- What is given to process `p` by `binder_enqueue_work` and `binder_wakeup_proc`.
abbrev give_proc : Binder → ℕ → List Work → ℕ → Work → Binder
give_proc b n ws p w =
    binder_wakeup_proc (binder_enqueue_work (set_work b (async_todo n) ws) w (proc_todo p)) p

give_proc-Next :
    (b : Binder) (n p t : ℕ) (ts : List ℕ) (nd : BinderNode)
    → b.nodes n ≡ some nd
    → Next n p nd b (give_proc b n (works ts) p (transaction_work t)) (t ∷ ts)
unfolding binder_enqueue_work
give_proc-Next b n p t ts nd g =
    let off = set_work b (async_todo n) (works ts) in
    let queued = binder_enqueue_work off (transaction_work t) (proc_todo p) in
    let same = binder_wakeup_proc-lanes queued p in
    let pr = record (b.procs p) { todo = (b.procs p).todo ++ transaction_work t ∷ [] } in
    busy (ap (λ h. h n) same.async ∙ write_self n (works ts) b.async) (ap (λ h. h n) same.nodes ∙ g)
      (binder_wakeup_proc-todo queued p ∙ ap (λ x. x.todo) (write_self p pr b.procs))
      (binder_wakeup_proc-threads queued p)

pub is_top-same : (o : Option ℕ) (p : ℕ) → is_top o p ≡ true → o ≡ some p
is_top-same none p e = absurd (cc)
is_top-same (some q) p e = let same : q ≡ p = ground (arith, e) in ap (λ x. some x) same

-- If the node is there and transactions wait for it, `next_one_way` stops at a BUG, or one was in
-- flight and process `p` owns the node, and the first that waits is then the last work of the
-- process, or none is in flight if none waits.
pub next_one_way-Next :
    (b : Binder) (p n : ℕ) (nd : BinderNode) (ts : List ℕ)
    → b.nodes n ≡ some nd
    → b.async n ≡ works ts
    → Always
        (λ b'. (nd.has_async_transaction ≡ true) × (nd.proc ≡ some p) × Next n p nd b b' ts)
        (next_one_way b p n)
unfolding next_one_way binder_dequeue_work_head
next_one_way-Next b p n nd [] g a = Always-some (b.nodes n) _ _ g (
    Always-guard nd.has_async_transaction (λ r. Always-guard (is_top nd.proc p) (λ own.
      simp (a, binder_dequeue_work_head)
        (gives (
          r,
          is_top-same nd.proc p own,
          idle a (write_self n (some (record nd { has_async_transaction = false })) b.nodes) refl
              refl,
        )))))
next_one_way-Next b p n nd (t ∷ ts) g a = Always-some (b.nodes n) _ _ g (
    Always-guard nd.has_async_transaction (λ r. Always-guard (is_top nd.proc p) (λ own.
      simp (a, binder_dequeue_work_head)
        (gives (r, is_top-same nd.proc p own, give_proc-Next b n p t ts nd g)))))
