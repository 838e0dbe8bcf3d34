-- ===== src/Driver/Looper/Bounded.antt =====
-- A process is never asked for more threads than it allows.
use headless_testing.Base.{
  ℕ, ◌+◌, ◌%◌, ◌^◌, ◌≤◌, ◌<◌, ◌≡◌, sym, subst, Bool, true, false, ◌&&◌, ◌||◌, arith, ◌==◌, inc32,
  dec32, if_cases, or_right, and_left, and_right,
}
use headless_testing.Driver.State.{Binder, BinderProc, set_proc}
use headless_testing.Driver.Heap.{write_self}
use headless_testing.Driver.Looper.{
  bc_register_looper, bc_enter_looper, bc_exit_looper, spawn_looper, set_max_threads, slt32,
  no_waiting,
}

-- At most one thread is asked for, and with those that came no more than `most`, which is below
-- 2 ^ 31 and not below the maximum.
pub record IsBounded (most : ℕ) (pr : BinderProc) : Type 0 where
  pub asked : pr.requested_threads ≤ 1
  pub total : pr.requested_threads + pr.requested_threads_started ≤ most
  pub maximum : pr.max_threads ≤ most

-- What the threads of process `p` do to its counts, with maxima up to `most`.
pub data LooperStep (most p : ℕ) : Binder → Binder → Type 0 where
  registers : {b : Binder} (th : ℕ) → LooperStep most p b (bc_register_looper b p th)
  enters : {b : Binder} (th : ℕ) → LooperStep most p b (bc_enter_looper b th)
  exits : {b : Binder} (th : ℕ) → LooperStep most p b (bc_exit_looper b th)
  reads : {b : Binder} (th : ℕ) → LooperStep most p b (spawn_looper b p th).0
  sets_max : {b : Binder} (n : ℕ) → n ≤ most → LooperStep most p b (set_max_threads b p n)

registers-IsBounded :
    (most : ℕ) (b : Binder) (p th : ℕ)
    → most < 2 ^ 31
    → IsBounded most (b.procs p)
    → IsBounded most ((bc_register_looper b p th).procs p)
unfolding bc_register_looper
registers-IsBounded most b p th h k =
    let pr = b.procs p in
    let k0 = k.asked in
    let k1 = k.total in
    let entered = (b.threads th).looper.entered in
    if_cases (λ (x : Binder). IsBounded most (x.procs p)) (entered || pr.requested_threads == 0)
      (λ e. k)
      (λ e.
        let some_asked = or_right entered (pr.requested_threads == 0) e in
        let one : pr.requested_threads ≡ 1 = ground (arith, some_asked, k0) in
        subst (IsBounded most)
          (sym (
            write_self p
              (record pr {
                requested_threads = dec32 pr.requested_threads;
                requested_threads_started = inc32 pr.requested_threads_started;
              })
              b.procs))
          (record {
            asked = omega (arith, one);
            total = omega (arith, one, k1, h);
            maximum = k.maximum;
          }))

-- On counts below 2 ^ 31, `<` on `int`s is `<`.
slt32_lt : (most x y : ℕ) → most < 2 ^ 31 → x ≤ most → y ≤ most → slt32 x y ≡ true → x < y
slt32_lt most x y h k l e =
    let x' : (x + 2 ^ 31) % 2 ^ 32 ≡ x + 2 ^ 31 = omega (arith, h, k) in
    let y' : (y + 2 ^ 31) % 2 ^ 32 ≡ y + 2 ^ 31 = omega (arith, h, l) in
    let less : ((x + 2 ^ 31) % 2 ^ 32) < ((y + 2 ^ 31) % 2 ^ 32) = ground (arith, e) in
    omega (arith, x', y', less)

reads-IsBounded :
    (most : ℕ) (b : Binder) (p th : ℕ)
    → most < 2 ^ 31
    → IsBounded most (b.procs p)
    → IsBounded most ((spawn_looper b p th).0.procs p)
unfolding spawn_looper
reads-IsBounded most b p th h k =
    let pr = b.procs p in
    let l = (b.threads th).looper in
    let k1 = k.total in
    let k2 = k.maximum in
    let none_asked = pr.requested_threads == 0 in
    let none_waits = no_waiting (b.procs (b.threads th).proc).waiting_threads in
    let room = slt32 pr.requested_threads_started pr.max_threads in
    let serves = l.registered || l.entered in
    let more = record pr { requested_threads = inc32 pr.requested_threads } in
    if_cases (λ (x : Binder × Bool). IsBounded most (x.0.procs p))
      (none_asked && none_waits && room && serves) {x = (set_proc b p more, true)} {y = (b, false)}
      (λ e.
        let first_three = and_left (none_asked && none_waits && room) serves e in
        let zero_asked =
          and_left none_asked none_waits (and_left (none_asked && none_waits) room first_three) in
        let fits = and_right (none_asked && none_waits) room first_three in
        let nothing : pr.requested_threads ≡ 0 = ground (arith, zero_asked) in
        let below : pr.requested_threads_started < pr.max_threads =
          slt32_lt most pr.requested_threads_started pr.max_threads h (omega (arith, k1)) k2 fits in
        subst (IsBounded most) (sym (write_self p more b.procs)) (record {
          asked = omega (arith, nothing);
          total = omega (arith, nothing, below, k2, h);
          maximum = k2;
        }))
      (λ e. k)

-- Whatever the threads do, the counts stay bounded.
pub LooperStep-IsBounded :
    (most p : ℕ) (b b' : Binder)
    → most < 2 ^ 31
    → IsBounded most (b.procs p)
    → LooperStep most p b b'
    → IsBounded most (b'.procs p)
unfolding bc_enter_looper bc_exit_looper set_max_threads
LooperStep-IsBounded most p b b' h k (registers th) = registers-IsBounded most b p th h k
LooperStep-IsBounded most p b b' h k (enters th) = k
LooperStep-IsBounded most p b b' h k (exits th) = k
LooperStep-IsBounded most p b b' h k (reads th) = reads-IsBounded most b p th h k
LooperStep-IsBounded most p b b' h k (sets_max n m) =
    subst (IsBounded most) (sym (write_self p (record (b.procs p) { max_threads = n }) b.procs))
      (record { asked = k.asked; total = k.total; maximum = m })

-- Any number of such steps.
pub data LooperSteps (most p : ℕ) : Binder → Binder → Type 0 where
  none_yet : {b : Binder} → LooperSteps most p b b
  then_step :
      {a b c : Binder} → LooperSteps most p a b → LooperStep most p b c → LooperSteps most p a c

-- If the maxima that are set, and the first one, are at most `most`, which is below 2 ^ 31, then
-- after any steps of its threads a process that started without threads is asked for at most one
-- thread at a time, and with those that registered for no more than `most`.
pub LooperSteps-IsBounded :
    (most p : ℕ) (b b' : Binder)
    → most < 2 ^ 31
    → (b.procs p).requested_threads ≡ 0
    → (b.procs p).requested_threads_started ≡ 0
    → (b.procs p).max_threads ≤ most
    → LooperSteps most p b b'
    → IsBounded most (b'.procs p)
LooperSteps-IsBounded most p b _ h r s m none_yet = record {
  asked = omega (arith, r);
  total = omega (arith, r, s);
  maximum = m;
}
LooperSteps-IsBounded most p b b' h r s m (then_step {b = c} steps last) =
    LooperStep-IsBounded most p c b' h (LooperSteps-IsBounded most p b c h r s m steps) last
