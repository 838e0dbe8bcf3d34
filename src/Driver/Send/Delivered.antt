-- ===== src/Driver/Send/Delivered.antt =====
-- The delivery of a call.
use headless_testing.Base.{
  ℕ, ◌≡◌, refl, ap, ◌∙◌, Bool, true, false, not, ◌||◌, ◌&&◌, Option, none, some, if◌then◌else◌,
  if_both, is_some, [], ◌∷◌, ◌++◌,
}
use headless_testing.Kernel.{
  Always, stops, gives, Always-bind, Always-any, Always-bug_on, Always-map, Always-option, Ends,
  ended, Ends-bind, Ends-done,
}
use headless_testing.RbTree.{RbLib}
use headless_testing.Alloc.State.{BinderBuffer}
use headless_testing.Driver.State.{
  Binder, BinderTransaction, BinderNode, BufferPtr, transaction_work, transaction_complete, write,
  set_node,
}
use headless_testing.Driver.Heap.{write_self, ==_refl}
use headless_testing.Driver.Work.{
  binder_enqueue_work, binder_enqueue_thread_work, binder_enqueue_deferred_thread_work,
  binder_select_thread, binder_wakeup_thread,
}
use headless_testing.Driver.Transaction.{
  lend_priority, queue_transaction, choose_thread, send_to_node, binder_proc_transaction,
  thread_dead, binder_pop_transaction,
}
use headless_testing.Driver.Transaction.Told.{binder_enqueue_thread_work-Changes, with_work}
use headless_testing.Driver.Send.State.{Held}
use headless_testing.Driver.Send.Deliver.{
  Delivery, deliver, deliver_call, deliver_one_way, push_call, pop_unsent, take_back,
}
use headless_testing.Driver.Send.Frames.{
  has_work, has_work-append, has_work-last, Keeps, Keeps-same, Keeps-trans, Keeps-write,
  binder_wakeup_thread-Calm,
}

choose_thread-Keeps :
    (b : Binder) (p : ℕ) (o : Option ℕ) (pending : Bool) → Keeps b (choose_thread b p o pending).0
unfolding choose_thread binder_select_thread
choose_thread-Keeps b p (some th) pending = Keeps-same b b refl
choose_thread-Keeps b p none true = Keeps-same b b refl
choose_thread-Keeps b p none false = Keeps-same b (binder_select_thread b p).0 refl

queue_transaction-Keeps :
    (b : Binder) (t : ℕ) (tx : BinderTransaction) (p : ℕ) (o : Option ℕ) (n : ℕ) (nd : BinderNode)
    (pending : Bool)
    → Keeps b (queue_transaction b t tx p o n nd pending)
unfolding queue_transaction binder_enqueue_work
queue_transaction-Keeps b t tx p none n nd true =
    Keeps-same b (queue_transaction b t tx p none n nd true) refl
queue_transaction-Keeps b t tx p none n nd false =
    Keeps-same b (queue_transaction b t tx p none n nd false) refl
queue_transaction-Keeps b t tx p (some th) n nd pending =
    let lent = lend_priority b t tx th nd in
    let w = transaction_work t in
    Keeps-write b (binder_enqueue_thread_work lent th w) th (with_work w (b.threads th))
      (binder_enqueue_thread_work-Changes lent th w).threads
      (record { stack = refl; completes = λ tc h. has_work-append _ (b.threads th).todo _ h })

send_to_node-Keeps :
    (b : Binder) (t : ℕ) (tx : BinderTransaction) (p : ℕ) (o : Option ℕ) (n : ℕ) (nd : BinderNode)
    → Always (λ r. Keeps b r.0) (send_to_node b t tx p o n nd)
unfolding send_to_node
send_to_node-Keeps b t tx p o n nd =
    let pending = tx.one_way && nd.has_async_transaction in
    let nd' = if tx.one_way then record nd { has_async_transaction = true } else nd in
    let b1 = set_node b n nd' in
    let chosen = choose_thread b1 p o pending in
    let queued = queue_transaction chosen.0 t tx p chosen.1 n nd' pending in
    let woken = binder_wakeup_thread queued p chosen.1 (not tx.one_way) in
    let start : Keeps b b1 = Keeps-same b b1 refl in
    let q : Keeps b queued = Keeps-trans start (
      Keeps-trans (choose_thread-Keeps b1 p o pending)
        (queue_transaction-Keeps chosen.0 t tx p chosen.1 n nd' pending)) in
    let w : Keeps b woken =
      Keeps-trans q (binder_wakeup_thread-Calm queued p chosen.1 (not tx.one_way)).keeps in
    Always-bug_on (tx.one_way && is_some o) (
      if_both (Always (λ r. Keeps b r.0)) ((b.procs p).is_dead || thread_dead b o) (gives start)
        (gives (if_both (Keeps b) pending q w)))

binder_proc_transaction-Keeps :
    (b : Binder) (t p : ℕ) (o : Option ℕ)
    → Always (λ r. Keeps b r.0) (binder_proc_transaction b t p o)
unfolding binder_proc_transaction
binder_proc_transaction-Keeps b t p o = Always-option (b.txns t) stops (λ tx e.
    Always-option tx.buffer stops (λ bp f. Always-option {A = BinderBuffer} _ stops (λ bf g.
      Always-option bf.target_node stops
        (λ n h. Always-option (b.nodes n) stops (λ nd i. send_to_node-Keeps b t tx p o n nd)))))

-- The completion is queued for the thread, and a call that waits for a reply is on its stack.
pub record Sent (th t tc : ℕ) (one_way : Bool) (b : Binder) : Type 0 where
  pub completes : has_work (transaction_complete tc) (b.threads th).todo ≡ true
  pub stack : one_way ≡ false → (b.threads th).transaction_stack ≡ some t

abbrev pub SentIf : ℕ → ℕ → ℕ → Bool → Delivery → Type 0
SentIf th t tc one_way (b, true) = Sent th t tc one_way b
SentIf th t tc one_way (b, false) = Unit

pub Sent-Keeps :
    {th t tc : ℕ} {one_way : Bool} {b b' : Binder}
    → Keeps b b'
    → Sent th t tc one_way b
    → Sent th t tc one_way b'
Sent-Keeps {th} {t} {tc} k s = record {
  completes = (k.at th).completes tc s.completes;
  stack = λ e. (k.at th).stack ∙ s.stack e;
}

push_call-Sent : (b : Binder) (th t tc : ℕ) → Always (Sent th t tc false) (push_call b th t tc)
unfolding binder_enqueue_deferred_thread_work binder_enqueue_work
push_call-Sent b th t tc = Always-option (b.txns t) stops (λ tx e.
    let w = transaction_complete tc in
    let told = binder_enqueue_deferred_thread_work b th w in
    let x = record (told.threads th) { transaction_stack = some t } in
    let pushed : write th x told.threads th ≡ x = write_self th x told.threads in
    let first : told.threads th ≡ record (b.threads th) { todo = (b.threads th).todo ++ w ∷ [] } =
      write_self th (record (b.threads th) { todo = (b.threads th).todo ++ w ∷ [] }) b.threads in
    gives (record {
      completes =
          ap (λ y. has_work w y.todo) pushed
          ∙ ap (λ y. has_work w y.todo) first
          ∙ has_work-last w (b.threads th).todo (==_refl tc);
      stack = λ q. ap (λ y. y.transaction_stack) pushed;
    }))

pop_unsent-SentIf :
    (th t tc : ℕ) (r : Delivery)
    → Sent th t tc false r.0
    → Always (SentIf th t tc false) (pop_unsent th t r)
pop_unsent-SentIf th t tc (b, true) s = gives s
pop_unsent-SentIf th t tc (b, false) s = Always-any (binder_pop_transaction b th t) (λ b'. gives tt)

if_Sent :
    (th t tc : ℕ) (one_way : Bool) (r : Delivery)
    → Sent th t tc one_way r.0
    → SentIf th t tc one_way r
if_Sent th t tc one_way (b, true) s = s
if_Sent th t tc one_way (b, false) s = tt

deliver_call-SentIf :
    (b : Binder) (th t tc : ℕ) (bp : BufferPtr) (p : ℕ) (o : Option ℕ)
    → Always (SentIf th t tc false) (deliver_call b th t tc bp p o)
unfolding deliver_call
deliver_call-SentIf b th t tc bp p o = Always-option {A = BinderBuffer} _ stops (λ bf e.
    Always-bug_on bf.async_transaction (
      Always-bind _ (push_call-Sent b th t tc) (λ pushed s.
        Always-bind (pop_unsent th t) (binder_proc_transaction-Keeps pushed t p o)
          (λ r k. pop_unsent-SentIf th t tc r (Sent-Keeps k s)))))

deliver_one_way-SentIf :
    (b : Binder) (th t tc : ℕ) (bp : BufferPtr) (p : ℕ) (held : Held)
    → Always (SentIf th t tc true) (deliver_one_way b th t tc bp p held)
unfolding deliver_one_way
deliver_one_way-SentIf b th t tc bp p held = Always-option {A = BinderBuffer} _ stops (λ bf e.
    let w = transaction_complete tc in
    let told = binder_enqueue_thread_work b th w in
    let at_th : told.threads th ≡ with_work w (b.threads th) =
      ap (λ f. f th) (binder_enqueue_thread_work-Changes b th w).threads
      ∙ write_self th (with_work w (b.threads th)) b.threads in
    let s : Sent th t tc true told = record {
      completes =
          ap (λ y. has_work w y.todo) at_th ∙ has_work-last w (b.threads th).todo (==_refl tc);
      stack = λ q. absurd (cc);
    } in
    Always-bug_on (not (is_some held.target_node)) (
      Always-bug_on (not bf.async_transaction) (
        Always-map (binder_proc_transaction-Keeps told t p none)
          (λ r k. if_Sent th t tc true r (Sent-Keeps k s)))))

deliver_either-SentIf :
    (b : Binder) (th t tc : ℕ) (bp : BufferPtr) (p : ℕ) (held : Held) (one_way : Bool)
    → Always (SentIf th t tc one_way) (
        if one_way
        then deliver_one_way b th t tc bp p held
        else deliver_call b th t tc bp p held.target_thread)
deliver_either-SentIf b th t tc bp p held true = deliver_one_way-SentIf b th t tc bp p held
deliver_either-SentIf b th t tc bp p held false =
    deliver_call-SentIf b th t tc bp p held.target_thread

take_back-SentIf :
    (th t tc : ℕ) (one_way : Bool) (r : Delivery)
    → SentIf th t tc one_way r
    → SentIf th t tc one_way (take_back th tc r)
take_back-SentIf th t tc one_way (b, true) s = s
take_back-SentIf th t tc one_way (b, false) s = tt

-- What is delivered is queued, and waits on its sender's stack.
pub deliver-SentIf :
    (rb : RbLib) (b : Binder) (th t tc : ℕ) (bp : BufferPtr) (p : ℕ) (held : Held) (one_way : Bool)
    → Ends (SentIf th t tc one_way) (deliver rb b th t tc bp p held false one_way)
unfolding deliver
deliver-SentIf rb b th t tc bp p held one_way =
    Ends-bind (Ends-done (deliver_either-SentIf b th t tc bp p held one_way))
      (λ r s. ended (take_back-SentIf th t tc one_way r s))
