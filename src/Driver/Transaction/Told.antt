-- ===== src/Driver/Transaction/Told.antt =====
-- What the thread of a sender is told.
use headless_testing.Base.{
  ℕ, ◌≡◌, refl, ◌∙◌, ap, sym, true, false, ◌==◌, Option, List, [], ◌∷◌, ◌++◌, inc32,
}
use headless_testing.Driver.State.{
  Binder, BinderThread, Reply, br_ok, br_error, br_dead_reply, br_failed_reply,
  br_transaction_complete, Work, reply_error_work, write, set_thread, thread_todo,
}
use headless_testing.Driver.Work.{binder_enqueue_thread_work, binder_enqueue_work}
use headless_testing.Driver.Heap.{write_self, write-write, write-same}
use headless_testing.Base.{append-nil}
use headless_testing.Driver.Lifetime.Frees.{lower_tmp_ref}
use headless_testing.Driver.Transaction.{set_reply_error}

-- An error that is not delivered yet stands.
abbrev pub told_error : Reply → Reply → Reply
told_error br_ok code = code
told_error r code = r

abbrev pub told_work : Reply → ℕ → List Work
told_work br_ok th = reply_error_work th ∷ []
told_work r th = []

-- Thread `th` has the error, and the next transaction is on top of its stack.
pub record IsTold (th : ℕ) (next : Option ℕ) (code : Reply) (b b' : Binder) : Type 0 where
  pub stack : (b'.threads th).transaction_stack ≡ next
  pub error : (b'.threads th).reply_error ≡ told_error (b.threads th).reply_error code
  pub queued : (b'.threads th).todo ≡ (b.threads th).todo ++ told_work (b.threads th).reply_error th
  pub others : (u : ℕ) → (u == th) ≡ false → b'.threads u ≡ b.threads u

-- What the sender's thread becomes.
abbrev pub popped : Option ℕ → BinderThread → BinderThread
popped next x = record x { tmp_ref = inc32 x.tmp_ref; transaction_stack = next }

abbrev pub told : ℕ → Reply → Reply → BinderThread → BinderThread
told th code br_ok x = record x {
  reply_error = code;
  todo = x.todo ++ reply_error_work th ∷ [];
  process_todo = true;
}
told th code r x = x

told_stack :
    (th : ℕ) (code r : Reply) (x : BinderThread)
    → (told th code r x).transaction_stack ≡ x.transaction_stack
told_stack th code br_ok x = refl
told_stack th code br_error x = refl
told_stack th code br_dead_reply x = refl
told_stack th code br_failed_reply x = refl
told_stack th code br_transaction_complete x = refl

told_reply :
    (th : ℕ) (code r : Reply) (x : BinderThread)
    → x.reply_error ≡ r
    → (told th code r x).reply_error ≡ told_error r code
told_reply th code br_ok x e = refl
told_reply th code br_error x e = e
told_reply th code br_dead_reply x e = e
told_reply th code br_failed_reply x e = e
told_reply th code br_transaction_complete x e = e

told_todo :
    (th : ℕ) (code r : Reply) (x : BinderThread)
    → (told th code r x).todo ≡ x.todo ++ told_work r th
told_todo th code br_ok x = refl
told_todo th code br_error x = sym (append-nil x.todo)
told_todo th code br_dead_reply x = sym (append-nil x.todo)
told_todo th code br_failed_reply x = sym (append-nil x.todo)
told_todo th code br_transaction_complete x = sym (append-nil x.todo)

-- The driver after an operation that changes one thread, and one transaction if any.
pub record Changes (th : ℕ) (f : BinderThread → BinderThread) (b b' : Binder) : Type 0 where
  pub threads : b'.threads ≡ write th (f (b.threads th)) b.threads

same_thread : (b : Binder) (th : ℕ) → Changes th (λ x. x) b b
same_thread b th = record { threads = sym (write-same th b.threads) }

-- Two changes of a thread are one.
pub Changes-twice :
    (th : ℕ) (f g : BinderThread → BinderThread) (b b' b'' : Binder)
    → Changes th f b b'
    → Changes th g b' b''
    → Changes th (λ x. g (f x)) b b''
Changes-twice th f g b b' b'' k l =
    let v = f (b.threads th) in
    record {
      threads =
          l.threads
          ∙ ap (λ h. write th (g (h th)) h) k.threads
          ∙ ap (λ x. write th (g x) (write th v b.threads)) (write_self th v b.threads)
          ∙ write-write th (g v) v b.threads;
    }

abbrev pub with_work : Work → BinderThread → BinderThread
with_work w x = record x { todo = x.todo ++ w ∷ []; process_todo = true }

pub binder_enqueue_thread_work-Changes :
    (b : Binder) (th : ℕ) (w : Work)
    → Changes th (with_work w) b (binder_enqueue_thread_work b th w)
unfolding binder_enqueue_thread_work binder_enqueue_work
binder_enqueue_thread_work-Changes b th w =
    let queued = binder_enqueue_work b w (thread_todo th) in
    Changes-twice th (λ x. record x { todo = x.todo ++ w ∷ [] })
      (λ x. record x { process_todo = true }) b queued (binder_enqueue_thread_work b th w)
      (record { threads = refl }) (record { threads = refl })

pub set_reply_error-Changes :
    (b : Binder) (th : ℕ) (code r : Reply)
    → (b.threads th).reply_error ≡ r
    → Changes th (told th code r) b (set_reply_error b th code)
unfolding set_reply_error
set_reply_error-Changes b th code br_ok e =
    let b' = set_thread b th (record (b.threads th) { reply_error = code }) in
    simp (e, set_reply_error)
      (record {
        threads =
            (Changes-twice th (λ x. record x { reply_error = code })
              (with_work (reply_error_work th)) b b'
              (binder_enqueue_thread_work b' th (reply_error_work th)) (record { threads = refl })
              (binder_enqueue_thread_work-Changes b' th (reply_error_work th))).threads;
      })
set_reply_error-Changes b th code br_error e = simp (e, set_reply_error) (same_thread b th)
set_reply_error-Changes b th code br_dead_reply e = simp (e, set_reply_error) (same_thread b th)
set_reply_error-Changes b th code br_failed_reply e = simp (e, set_reply_error) (same_thread b th)
set_reply_error-Changes b th code br_transaction_complete e =
    simp (e, set_reply_error) (same_thread b th)

pub set_reply_error-txns :
    (b : Binder) (th : ℕ) (code r : Reply)
    → (b.threads th).reply_error ≡ r
    → (set_reply_error b th code).txns ≡ b.txns
unfolding set_reply_error binder_enqueue_thread_work binder_enqueue_work
set_reply_error-txns b th code br_ok e = simp (e, set_reply_error) refl
set_reply_error-txns b th code br_error e = simp (e, set_reply_error) refl
set_reply_error-txns b th code br_dead_reply e = simp (e, set_reply_error) refl
set_reply_error-txns b th code br_failed_reply e = simp (e, set_reply_error) refl
set_reply_error-txns b th code br_transaction_complete e = simp (e, set_reply_error) refl

pub IsTold-told :
    (th : ℕ) (next : Option ℕ) (code : Reply) (b b' : Binder)
    → b'.threads
      ≡ write th
          (lower_tmp_ref (told th code (b.threads th).reply_error (popped next (b.threads th))))
          b.threads
    → IsTold th next code b b'
IsTold-told th next code b b' k =
    let r = (b.threads th).reply_error in
    let x = popped next (b.threads th) in
    let at_th : b'.threads th ≡ lower_tmp_ref (told th code r x) =
      ap (λ h. h th) k ∙ write_self th (lower_tmp_ref (told th code r x)) b.threads in
    record {
      stack = ap (λ y. y.transaction_stack) at_th ∙ told_stack th code r x;
      error = ap (λ y. y.reply_error) at_th ∙ told_reply th code r x refl;
      queued = ap (λ y. y.todo) at_th ∙ told_todo th code r x;
      others = λ u n. ap (λ h. h u) k ∙ rw n refl;
    }
