-- ===== src/Driver/Send/Answers.antt =====
-- A call is answered: it is on its way and its completion is queued, or its thread gets an error.
use headless_testing.Base.{
  ℕ, ◌≡◌, subst, refl, ap, ◌∙◌, ◌/◌, true, false, Option, none, some, List, if_both,
}
use headless_testing.Kernel.{
  Ends, ended, stopped, Ends-any, Ends-bind, Ends-map, Ends-option, Ends-cases_of, Ptr, ptr,
  null_ptr, err_ptr, Errno,
}
use headless_testing.RbTree.{RbLib}
use headless_testing.Alloc.State.{BinderAlloc}
use headless_testing.Driver.State.{
  Binder, BufferPtr, Reply, transaction_complete, set_txn, set_alloc, br_dead_reply,
  br_failed_reply,
}
use headless_testing.Driver.Transaction.{forget_txn}
use headless_testing.Driver.Send.State.{SendKernel, Held, Found, Carried, Sending}
use headless_testing.Driver.Send.Target.{find_target}
use headless_testing.Driver.Send.Request.{
  System, Request, fresh_txn, ExtraSize, size_with_secctx, attach_buffer, first_carried, sending,
  copied, alloc_error,
}
use headless_testing.Driver.Send.Deliver.{Delivery}
use headless_testing.Driver.Send.Whole.{
  binder_transaction, with_target, allocate_txn, allocate_buffer, with_new_buffer, fill_buffer,
  after_objects, after_delivery, settle, fail_here,
}
use headless_testing.Driver.Send.Walks.{first-Nested}
use headless_testing.Driver.Send.Nesting.{carry_from-Ends}
use headless_testing.Driver.Send.Frames.{has_work, Calm}
use headless_testing.Driver.Send.Failure.{put_node}
use headless_testing.Driver.Send.Delivered.{SentIf, Sent-Keeps, deliver-SentIf}
use headless_testing.Driver.Send.Refused.{
  StackOf, Ready, call_target-Ready, IsGone, Refused, fail_early-Refused, fail_late-Refused,
  give_back-Calm, put_node-Calm, forgotten, is_failure,
}

-- After a call the thread waits for it, or is told of its failure.
pub data Answered (k : SendKernel) (q : Request) (b : Binder) : Type 0 where
  sent :
      {t tc : ℕ}
      → k.kzalloc_t ≡ some t
      → k.kzalloc_tcomplete ≡ some tc
      → has_work (transaction_complete tc) (b.threads q.thread).todo ≡ true
      → (q.tr.one_way ≡ false → (b.threads q.thread).transaction_stack ≡ some t)
      → Answered k q b
  failed : Refused k q.thread b → Answered k q b

abbrev pub AnsweredWith : {A : Type 0} → SendKernel → Request → Binder × A → Type 0
AnsweredWith k q (b, files) = Answered k q b

alloc_error_fails : (x : Errno) → is_failure (alloc_error x) ≡ true
alloc_error_fails Errno.esrch = refl
alloc_error_fails _ = refl

module _ (rb : RbLib) (k : SendKernel) (fuel : ℕ) (q : Request) (call : q.reply ≡ false) where
  settle-Calm : (b : Binder) (held : Held) → Ends (Calm b) (settle rb k fuel b held)
  unfolding settle
  settle-Calm b held =
      give_back-Calm rb b held.target_thread held.target_proc
        (λ b2. put_node rb b2 held.target_node) (λ b2. put_node-Calm rb b2 held.target_node)

  after_delivery-Answered :
      (s : Sending) (c : Carried) (bp : BufferPtr) (t tc count : ℕ) (r : Delivery)
      → s.thread ≡ q.thread
      → s.held.in_reply_to ≡ none
      → k.kzalloc_t ≡ some t
      → k.kzalloc_tcomplete ≡ some tc
      → SentIf q.thread t tc q.tr.one_way r
      → Ends (AnsweredWith k q) (after_delivery rb k fuel s c bp t count r)
  unfolding after_delivery
  after_delivery-Answered s c bp t tc count (b, true) same e h g x =
      Ends-bind (settle-Calm b s.held)
        (λ b' l. let y = Sent-Keeps l.keeps x in ended (sent h g y.completes y.stack))
  after_delivery-Answered s c bp t tc count (b, false) same e h g x =
      Ends-map
        (fail_late-Refused rb k fuel s (record c { driver = b }) bp t count br_dead_reply e refl h)
        (λ r l. failed (subst (λ u. Refused k u r.0) same l))

  after_objects-Answered :
      (s : Sending) (bp : BufferPtr) (t tc count : ℕ) (r : Carried × Option ℕ)
      → s.thread ≡ q.thread
      → s.held.in_reply_to ≡ none
      → k.kzalloc_t ≡ some t
      → k.kzalloc_tcomplete ≡ some tc
      → Ends (AnsweredWith k q) (after_objects rb k fuel q s bp t tc count r)
  unfolding after_objects
  after_objects-Answered s bp t tc count (c, some index) same e h g =
      Ends-map (fail_late-Refused rb k fuel s c bp t index br_failed_reply e refl h)
        (λ r l. failed (subst (λ u. Refused k u r.0) same l))
  after_objects-Answered s bp t tc count (c, none) same e h g =
      simp (call, after_objects)
        (Ends-bind (deliver-SentIf rb c.driver q.thread t tc bp s.target s.held q.tr.one_way)
          (λ r x. after_delivery-Answered s c bp t tc count r same e h g x))

  fill_buffer-Answered :
      (y : System) (e : ExtraSize) (held : Held) (p t tc addr : ℕ)
      → held.in_reply_to ≡ none
      → k.kzalloc_t ≡ some t
      → k.kzalloc_tcomplete ≡ some tc
      → Ends (AnsweredWith k q) (fill_buffer rb k fuel y q e held p t tc addr)
  unfolding fill_buffer
  fill_buffer-Answered (b, files) e held p t tc addr n h g =
      let bp : BufferPtr = record { owner = p; addr = addr } in
      let s = sending q e held p addr in
      let c = first_carried k (b, files) q p addr in
      let count = q.tr.offsets_size / 8 in
      let m = c.content.memory in
      if_both (Ends (AnsweredWith k q)) (copied k q.tr e)
        (Ends-bind (carry_from-Ends rb k s c 0 count (first-Nested m.objects m.offset_of))
          (λ r x. after_objects-Answered s bp t tc count r refl n h g))
        (Ends-map (fail_late-Refused rb k fuel s c bp t 0 br_failed_reply n refl h)
          (λ r l. failed l))

  fail_here-Answered :
      (b : Binder) (files : ℕ → List ℕ) (held : Held) (code : Reply)
      → held.in_reply_to ≡ none
      → is_failure code ≡ true
      → IsGone k b.txns
      → Ends (AnsweredWith k q) (fail_here rb k fuel (b, files) q held code)
  fail_here-Answered b files held code n h g =
      Ends-bind (fail_early-Refused rb k fuel b q.thread held code n h g) (λ b' x. ended (failed x))

  with_new_buffer-Answered :
      (b : Binder) (files : ℕ → List ℕ) (e : ExtraSize) (held : Held) (p t tc : ℕ) (r : Ptr)
      → held.in_reply_to ≡ none
      → k.kzalloc_t ≡ some t
      → k.kzalloc_tcomplete ≡ some tc
      → Ends (AnsweredWith k q) (with_new_buffer rb k fuel (b, files) q e held p t tc r)
  unfolding with_new_buffer
  with_new_buffer-Answered b files e held p t tc (err_ptr x) n h g =
      fail_here-Answered (forget_txn t b) files held (alloc_error x) n (alloc_error_fails x)
        (forgotten k t b h)
  with_new_buffer-Answered b files e held p t tc null_ptr n h g = stopped
  with_new_buffer-Answered b files e held p t tc (ptr addr) n h g =
      Ends-any (attach_buffer b q e held p t addr) (λ attached.
        Ends-bind (fill_buffer-Answered (attached, files) e held p t tc addr n h g)
          (λ r x. ended x))

  allocate_buffer-Answered :
      (b : Binder) (files : ℕ → List ℕ) (held : Held) (p t tc : ℕ) (o : Option ExtraSize)
      → held.in_reply_to ≡ none
      → k.kzalloc_t ≡ some t
      → k.kzalloc_tcomplete ≡ some tc
      → Ends (AnsweredWith k q) (allocate_buffer rb k fuel (b, files) q held p t tc o)
  unfolding allocate_buffer
  allocate_buffer-Answered b files held p t tc none n h g =
      fail_here-Answered (forget_txn t b) files held br_failed_reply n refl (forgotten k t b h)
  allocate_buffer-Answered b files held p t tc (some e) n h g =
      Ends-any {A = BinderAlloc × Ptr} _
        (λ r. with_new_buffer-Answered (set_alloc b p r.0) files e held p t tc r.1 n h g)

  allocate_txn-Answered :
      (b : Binder) (files : ℕ → List ℕ) (held : Held) (p : ℕ)
      → held.in_reply_to ≡ none
      → IsGone k b.txns
      → Ends (AnsweredWith k q) (allocate_txn rb k fuel (b, files) q held p)
  unfolding allocate_txn
  allocate_txn-Answered b files held p n gone =
      Ends-cases_of k.kzalloc_t (fail_here-Answered b files held br_failed_reply n refl gone)
        (λ t h.
          Ends-cases_of k.kzalloc_tcomplete
            (fail_here-Answered b files held br_failed_reply n refl gone)
            (λ tc g.
              let made = set_txn b t (fresh_txn k b q held p) in
              Ends-any (size_with_secctx k made held.target_node q.extra_buffers_size)
                (λ o. allocate_buffer-Answered made files held p t tc o n h g)))

  with_target-Answered :
      (b : Binder) (files : ℕ → List ℕ) (f : Found)
      → IsGone k b.txns
      → Ready b f
      → Ends (AnsweredWith k q) (with_target rb k fuel files q f)
  unfolding with_target
  with_target-Answered b files (b', held, some code) gone r =
      fail_here-Answered b' files held code r.no_reply r.fails
        (λ t e. ap (λ f. f t) r.calm.txns ∙ gone t e)
  with_target-Answered b files (b', held, none) gone r = Ends-option held.target_proc (λ p.
      allocate_txn-Answered b' files held p r.no_reply
        (λ t e. ap (λ f. f t) r.calm.txns ∙ gone t e))

  -- With fuel for the transactions on its thread's stack, a call ends, whatever the kernel answers
  -- and the objects are. Unless it stops at a BUG, its completion is queued for the thread, and it
  -- is on top of the thread's stack if it is synchronous; or the thread has a dead or failed reply
  -- as its error, with the work for it queued, and the transaction, whose memory was not in use
  -- before, is not in the heap.
  pub binder_transaction-Answered :
      (b : Binder) (files : ℕ → List ℕ)
      → StackOf b.txns (b.threads q.thread).transaction_stack fuel
      → IsGone k b.txns
      → Ends (AnsweredWith k q) (binder_transaction rb k fuel (b, files) q)
  unfolding binder_transaction find_target
  binder_transaction-Answered b files s gone =
      simp (call, binder_transaction, find_target)
        (Ends-bind (call_target-Ready k fuel b q.thread q.tr s)
          (λ f r. with_target-Answered b files f gone r))
