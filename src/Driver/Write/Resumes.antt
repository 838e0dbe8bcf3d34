-- ===== src/Driver/Write/Resumes.antt =====
-- Commands may be written all at once or in several goes.
use headless_testing.Base.{
  ℕ, zero, suc, ◌+◌, ◌<◌, ◌≤◌, ◌≡◌, refl, sym, ◌∙◌, ap, true, false, Option, none, some, Bool-cases,
  inl, inr, arith, ltb, and_left, and_right,
}
use headless_testing.Kernel.{Run, ok, ◌>>=?◌, Within-same, >>=?-eq}
use headless_testing.RbTree.{RbLib}
use headless_testing.Driver.Send.Request.{System}
use headless_testing.Driver.Write.{
  CommandBuffer, CommandKernel, Outcome, goes_on, ends, write_at, Written, wants_more,
  after_command, write_loop, binder_thread_write,
}
use headless_testing.Driver.Write.Advances.{Beyond, write_at-Beyond}

after_same :
    (f g : System → ℕ → Run (Option Written)) (pos : ℕ)
    → ((s' : System) (pos' : ℕ) → pos < pos' → f s' pos' ≡ g s' pos')
    → (r : Outcome) → Beyond pos r
    → after_command f pos r ≡ after_command g pos r
after_same f g pos h (goes_on s' pos') b = h s' pos' b
after_same f g pos h (ends s' e) b = refl

-- At the end of the commands the loop stops.
full : (th size : ℕ) (s : System) (pos : ℕ) → size ≤ pos → wants_more th size s pos ≡ false
full th size s pos h = ground (arith, h)

wants_as_well :
    (th size size' : ℕ) (s : System) (pos : ℕ)
    → size ≤ size'
    → wants_more th size s pos ≡ true
    → wants_more th size' s pos ≡ true
wants_as_well th size size' s pos h more =
    let lt : pos < size = ground (arith, and_left (ltb pos size) _ more) in
    let fits : ltb pos size' ≡ true = ground (arith, lt, h) in
    let good = and_right (ltb pos size) _ more in rw (fits, good) refl

module _ (rb : RbLib) (fuel : ℕ) (u : CommandBuffer) (k : ℕ → CommandKernel) (p th : ℕ) where
  abbrev loop : ℕ → ℕ → System → ℕ → Run (Option Written)
  loop turns size s pos = write_loop rb turns fuel u k p th size s pos

  abbrev step : System → ℕ → Run (Option Outcome)
  step s pos = write_at rb fuel u p th (k pos) s pos

  loop_stops :
      (turns size : ℕ) (s : System) (pos : ℕ)
      → wants_more th size s pos ≡ false
      → write_loop rb (suc turns) fuel u k p th size s pos
        ≡ ok (some (record { system = s; consumed = pos; error = none }))
  unfolding write_loop
  loop_stops turns size s pos h = rw (h, write_loop) refl

  loop_turns :
      (turns size : ℕ) (s : System) (pos : ℕ)
      → wants_more th size s pos ≡ true
      → loop (suc turns) size s pos ≡ (step s pos >>=? after_command (loop turns size) pos)
  unfolding write_loop
  loop_turns turns size s pos h = rw (h, write_loop) refl

  -- More turns than there are bytes make no difference.
  loop_same :
      (t t' size : ℕ) (s : System) (pos : ℕ)
      → size ≤ t + pos
      → size ≤ t' + pos
      → loop (suc t) size s pos ≡ loop (suc t') size s pos
  loop_same zero t' size s pos h h' =
      let stop = full th size s pos (omega (arith, h)) in
      loop_stops zero size s pos stop ∙ sym (loop_stops t' size s pos stop)
  loop_same (suc a) zero size s pos h h' =
      let stop = full th size s pos (omega (arith, h')) in
      loop_stops (suc a) size s pos stop ∙ sym (loop_stops zero size s pos stop)
  loop_same (suc a) (suc a') size s pos h h' = elim (Bool-cases (wants_more th size s pos)) [
    | inr stop ↦ loop_stops (suc a) size s pos stop ∙ sym (loop_stops (suc a') size s pos stop)
    | inl more ↦
        loop_turns (suc a) size s pos more
        ∙ Within-same (after_command (loop (suc a) size) pos)
            (after_command (loop (suc a') size) pos) (write_at-Beyond rb fuel u p th (k pos) s pos)
            (after_same (loop (suc a) size) (loop (suc a') size) pos (λ s' pos' lt.
              loop_same a a' size s' pos' (omega (arith, h, lt)) (omega (arith, h', lt))))
        ∙ sym (loop_turns (suc a') size s pos more)
  ]

  abbrev whole : ℕ → System → ℕ → Run (Option Written)
  whole size s pos = binder_thread_write rb fuel u k p th size s pos

  whole_turns :
      (size : ℕ) (s : System) (pos : ℕ)
      → wants_more th size s pos ≡ true
      → whole size s pos ≡ (step s pos >>=? after_command (whole size) pos)
  unfolding binder_thread_write
  whole_turns zero s pos more = absurd (cc (full th zero s pos (omega arith), more))
  whole_turns (suc n) s pos more =
      loop_turns (suc n) (suc n) s pos more
      ∙ Within-same (after_command (loop (suc n) (suc n)) pos) (after_command (whole (suc n)) pos)
          (write_at-Beyond rb fuel u p th (k pos) s pos)
          (after_same (loop (suc n) (suc n)) (whole (suc n)) pos
            (λ s' pos' lt. loop_same n (suc n) (suc n) s' pos' (omega (arith, lt)) (omega arith)))

  resumes_after :
      (t size size' : ℕ) (s : System) (pos : ℕ) (w : Written) (r : Outcome)
      → step s pos ≡ ok (some r)
      → after_command (loop t size) pos r ≡ ok (some w)
      → w.error ≡ none
      → wants_more th size' s pos ≡ true
      → ((s' : System) (pos' : ℕ)
          → loop t size s' pos' ≡ ok (some w)
          → whole size' s' pos' ≡ whole size' w.system w.consumed)
      → whole size' s pos ≡ whole size' w.system w.consumed
  resumes_after t size size' s pos w (goes_on s' pos') m h n more ih =
      whole_turns size' s pos more
      ∙ ap (λ x. x >>=? after_command (whole size') pos) m
      ∙ ih s' pos' h
  resumes_after t size size' s pos w (ends s' e) m h n more ih =
      let same : ◌≡◌ {A = Written} (record { system = s'; consumed = pos; error = some e }) w =
        cc in
      let bad : some e ≡ none = ap (λ x. x.error) same ∙ n in absurd (cc)

  resumes :
      (t size size' : ℕ) (s : System) (pos : ℕ) (w : Written)
      → size ≤ size'
      → loop t size s pos ≡ ok (some w)
      → w.error ≡ none
      → whole size' s pos ≡ whole size' w.system w.consumed
  unfolding write_loop
  resumes zero size size' s pos w h e n = absurd (cc)
  resumes (suc t) size size' s pos w h e n = elim (Bool-cases (wants_more th size s pos)) [
    | inr stop ↦
        let same : ◌≡◌ {A = Written} (record { system = s; consumed = pos; error = none }) w =
          cc (loop_stops t size s pos stop) in
        ap (λ x. whole size' x.system x.consumed) same
    | inl more ↦
        let (r, m, f) =
          >>=?-eq (step s pos) (after_command (loop t size) pos)
            (sym (loop_turns t size s pos more) ∙ e) in
        resumes_after t size size' s pos w r m f n (wants_as_well th size size' s pos h more)
          (λ s' pos' g. resumes t size size' s' pos' w h g n)
  ]

  -- Commands that are written up to a boundary between two of them, without an error, and then the
  -- rest of them, have the effect and the answer of all of them written at once: if the commands
  -- within the first `size` bytes end with no error, a write of all `size'` bytes is one that starts
  -- with what they left, where they ended.
  pub binder_thread_write-resumes :
      (size size' : ℕ) (s : System) (pos : ℕ) (w : Written)
      → size ≤ size'
      → binder_thread_write rb fuel u k p th size s pos ≡ ok (some w)
      → w.error ≡ none
      → binder_thread_write rb fuel u k p th size' s pos
        ≡ binder_thread_write rb fuel u k p th size' w.system w.consumed
  unfolding binder_thread_write
  binder_thread_write-resumes size size' s pos w h e n = resumes (suc size) size size' s pos w h e n
