-- ===== src/Driver/Create/Threads.antt =====
-- A process has one thread for each pid.
use headless_testing.Base.{
  ℕ, ◌+◌, ◌≡◌, ◌≢◌, ◌<◌, refl, ◌∙◌, ap, sym, subst, arith, Option, none, some, List, [], ◌∷◌, ◌==◌,
  count, All, Bool-cases, inl, inr, trichotomy, below, same, above,
}
use headless_testing.Kernel.{ok, ◌>>=◌, Gives, gave, Gives-eq}
use headless_testing.RbTree.{RbLib, Tree, in_order, link, toward}
use headless_testing.RbTree.Order.{Has}
use headless_testing.RbTree.Keys.{Rising, Finds, found, missing, search_tree-Finds, link-Inserted}
use headless_testing.Priority.{Task}
use headless_testing.Driver.State.{Binder, BinderThread, write, set_proc, set_thread}
use headless_testing.Driver.Heap.{write_self}
use headless_testing.Driver.Create.{by_pid, fresh_thread, binder_get_thread_ilocked}
use headless_testing.Driver.Ref.{fresh_way}

abbrev pub pid_of : Binder → ℕ → ℕ
pid_of b th = (b.threads th).pid

abbrev pub threads_of : Binder → ℕ → List ℕ
threads_of b p = in_order (b.procs p).threads

-- The thread with the pid is there, or the new one is it, among threads whose pids rise.
pub data Gets (b : Binder) (p pid new : ℕ) : Binder × Option ℕ → Type 0 where
  there : (th : ℕ) → Has th (threads_of b p) → pid_of b th ≡ pid → Gets b p pid new (b, some th)
  made :
      {b' : Binder}
      → All (λ th. pid_of b th ≢ pid) (threads_of b p)
      → pid_of b' new ≡ pid
      → Rising (pid_of b') (threads_of b' p)
      → ((a : ℕ) → count a (threads_of b' p) ≡ count a (threads_of b p) + count a (new ∷ []))
      → Gets b p pid new (b', some new)

by_pid-toward :
    (b : Binder) (pid : ℕ) (xs : List ℕ) → All (λ x. by_pid b pid x ≡ toward pid (pid_of b x)) xs
by_pid-toward b pid [] = tt
by_pid-toward b pid (x ∷ xs) = (refl, by_pid-toward b pid xs)

-- The pid of a thread once the new one is filled in.
abbrev pid_with : Binder → ℕ → BinderThread → ℕ → ℕ
pid_with b new x th = (write new x b.threads th).pid

pid_other :
    (b : Binder) (new : ℕ) (x : BinderThread) (th : ℕ)
    → th ≢ new
    → pid_with b new x th ≡ pid_of b th
pid_other b new x th n = elim (Bool-cases (th == new)) [
  | inl e ↦ absurd (n (ground (arith, e)))
  | inr e ↦ rw (pid_with, e) refl
]

below_with :
    (b : Binder) (new : ℕ) (x : BinderThread) (th : ℕ) (xs : List ℕ)
    → th ≢ new
    → All (λ y. y ≢ new) xs
    → All (λ y. pid_of b th < pid_of b y) xs
    → All (λ y. pid_with b new x th < pid_with b new x y) xs
below_with b new x th [] n ne h = tt
below_with b new x th (y ∷ ys) n ne h =
    let p = pid_other b new x th n in
    let q = pid_other b new x y ne.0 in
    let lt : pid_of b th < pid_of b y = h.0 in
    (omega (arith, p, q, lt), below_with b new x th ys n ne.1 h.1)

Rising-with :
    (b : Binder) (new : ℕ) (x : BinderThread) (xs : List ℕ)
    → All (λ y. y ≢ new) xs
    → Rising (pid_of b) xs
    → Rising (pid_with b new x) xs
Rising-with b new x [] ne h = tt
Rising-with b new x (y ∷ ys) ne h =
    (below_with b new x y ys ne.0 ne.1 h.0, Rising-with b new x ys ne.1 h.1)

fresh_toward : (a k : ℕ) → k ≢ a → fresh_way (toward a k) ≡ toward a k
fresh_toward a k n = elim (trichotomy a k) [
  | below lt ↦ ground arith
  | same eq ↦ absurd (n (sym eq))
  | above gt ↦ ground arith
]

fresh_place :
    (b : Binder) (new pid : ℕ) (x : BinderThread) (xs : List ℕ)
    → pid_with b new x new ≡ pid
    → All (λ y. y ≢ new) xs
    → All (λ y. pid_of b y ≢ pid) xs
    → All
        (λ y.
          (pid_with b new x y ≢ pid_with b new x new)
          × (fresh_way (by_pid b pid y) ≡ toward (pid_with b new x new) (pid_with b new x y)))
        xs
fresh_place b new pid x [] e ne h = tt
fresh_place b new pid x (y ∷ ys) e ne h =
    let p = pid_other b new x y ne.0 in
    (
      (
        (λ q. h.0 (sym p ∙ q ∙ e)),
        fresh_toward pid (pid_of b y) h.0
            ∙ ap (λ a. toward a (pid_of b y)) (sym e)
            ∙ ap (toward (pid_with b new x new)) (sym p),
      ),
      fresh_place b new pid x ys e ne.1 h.1,
    )

module _ (rb : RbLib) (b : Binder) (p pid : ℕ) (task : Task) (new : ℕ) where
  -- The new thread, linked.
  abbrev with_new : Tree → Binder
  with_new linked =
      let pr = record (b.procs p) { threads = rb.rb_insert_color new linked } in
      set_thread (set_proc b p pr) new (fresh_thread p pid task)

  with_new-threads : (linked : Tree) → threads_of (with_new linked) p ≡ in_order linked
  with_new-threads linked =
      let pr = record (b.procs p) { threads = rb.rb_insert_color new linked } in
      ap (λ x. in_order x.threads) (write_self p pr b.procs)
      ∙ rb.in_order-rb_insert_color new linked

  new_pid : pid_with b new (fresh_thread p pid task) new ≡ pid
  new_pid = ap (λ x. x.pid) (write_self new (fresh_thread p pid task) b.threads)

  insert-Gets :
      Rising (pid_of b) (threads_of b p)
      → All (λ th. th ≢ new) (threads_of b p)
      → All (λ th. pid_of b th ≢ pid) (threads_of b p)
      → Gives (Gets b p pid new) (
          link (λ x. fresh_way (by_pid b pid x)) new (b.procs p).threads >>= λ linked.
          ok (with_new linked, some new))
  insert-Gets r ne absent =
      let x = fresh_thread p pid task in
      let (linked, e, i) =
        link-Inserted (pid_with b new x) (λ y. fresh_way (by_pid b pid y)) new (b.procs p).threads
          (Rising-with b new x (threads_of b p) ne r)
          (fresh_place b new pid x (threads_of b p) new_pid ne absent) in
      let same = with_new-threads linked in
      Gives-eq _ e (
        gave (
          made absent new_pid (subst (Rising (pid_with b new x)) (sym same) i.rising)
            (λ a. ap (count a) same ∙ i.counts a)))

  after_search :
      (o : Option ℕ)
      → Finds (pid_of b) (by_pid b pid) pid (threads_of b p) o
      → Rising (pid_of b) (threads_of b p)
      → All (λ th. th ≢ new) (threads_of b p)
      → Gives (Gets b p pid new) (elim o [
        | some th ↦ ok (b, some th)
        | none ↦ link (λ x. fresh_way (by_pid b pid x)) new (b.procs p).threads >>= λ linked.
            ok (with_new linked, some new)
      ])
  after_search _ (found th h e) r ne = gave (there th h e)
  after_search _ (missing absent) r ne = insert-Gets r ne absent

  -- If the pids of a process's threads rise along their tree, and the memory for a new thread is not
  -- one of them, then a thread with the pid is got without a BUG: the one that is there, or the new
  -- one if none is, which is then in the tree once more than before, and the pids still rise.
  pub binder_get_thread_ilocked-Gets :
      Rising (pid_of b) (threads_of b p)
      → All (λ th. th ≢ new) (threads_of b p)
      → Gives (Gets b p pid new) (binder_get_thread_ilocked rb b p pid task (some new))
  unfolding binder_get_thread_ilocked
  binder_get_thread_ilocked-Gets r ne =
      let (o, e, f) =
        search_tree-Finds (pid_of b) (by_pid b pid) pid (b.procs p).threads r
          (by_pid-toward b pid (threads_of b p)) in
      Gives-eq _ e (after_search o f r ne)
