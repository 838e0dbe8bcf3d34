-- ===== src/Driver/Write/Advances.antt =====
-- Every command that is carried out leads on in the buffer.
use headless_testing.Base.{ℕ, ◌+◌, ◌<◌, Bool, true, false, Option, none, some, List, arith}
use headless_testing.Kernel.{Run, ok, Within, within, Within-any, Within-bind, Errno}
use headless_testing.RbTree.{RbLib}
use headless_testing.Driver.State.{Binder}
use headless_testing.Driver.FreeBuffer.{bc_free_buffer}
use headless_testing.Driver.Counting.{bc_refs, bc_done}
use headless_testing.Driver.Death.{bc_dead_binder_done}
use headless_testing.Driver.Send.Request.{System}
use headless_testing.Driver.Send.Whole.{binder_transaction}
use headless_testing.Driver.Write.Protocol.{Command, decode}
use headless_testing.Driver.Write.{
  CommandBuffer, CommandKernel, Outcome, goes_on, ends, with_value, on_driver, refs_outcome,
  write_refs, write_done, write_free_buffer, send_request, write_transaction, write_transaction_sg,
  write_death, write_dead_binder_done, write_command, write_at,
}

-- The writing ends, or goes on behind an offset.
abbrev pub Beyond : ℕ → Outcome → Type 0
Beyond pos (goes_on s pos') = pos < pos'
Beyond pos (ends s e) = Unit

with_value-Within :
    {A : Type 0} {P : Outcome → Type 0} (s : System) (o : Option A) {k : A → Run (Option Outcome)}
    → P (ends s Errno.efault)
    → ((a : A) → Within P (k a))
    → Within P (with_value s o k)
with_value-Within s none h k = within h
with_value-Within s (some a) h k = k a

on_driver-Within :
    (n pos : ℕ) (s : System) (m : Run Binder) → n < pos → Within (Beyond n) (on_driver s pos m)
on_driver-Within n pos s m h = Within-any m (λ b. within h)

refs_outcome-Beyond :
    (n pos : ℕ) (s : System) (b : Binder) (e : Option Errno)
    → n < pos
    → Beyond n (refs_outcome s pos (b, e))
refs_outcome-Beyond n pos s b none h = h
refs_outcome-Beyond n pos s b (some e) h = tt

module _ (rb : RbLib) (fuel : ℕ) (u : CommandBuffer) (p th : ℕ) (k : CommandKernel) where
  write_refs-Beyond :
      (n : ℕ) (s : System) (pos : ℕ) (increment strong : Bool)
      → n < pos
      → Within (Beyond n) (write_refs rb fuel u p th k s pos increment strong)
  unfolding write_refs
  write_refs-Beyond n s pos increment strong h = with_value-Within s (u.get_u32 pos) tt (λ target.
      Within-any (bc_refs rb s.0 p target increment strong k.kzalloc_ref)
        (λ r. within (refs_outcome-Beyond n (pos + 4) s r.0 r.1 (omega (arith, h)))))

  write_done-Beyond :
      (n : ℕ) (s : System) (pos : ℕ) (acquire : Bool)
      → n < pos
      → Within (Beyond n) (write_done rb fuel u p th s pos acquire)
  unfolding write_done
  write_done-Beyond n s pos acquire h = with_value-Within s (u.get_u64 pos) tt (λ node_ptr.
      with_value-Within s (u.get_u64 (pos + 8)) tt (λ cookie.
        on_driver-Within n (pos + 16) s (bc_done rb s.0 p node_ptr cookie acquire)
          (omega (arith, h))))

  write_free_buffer-Beyond :
      (n : ℕ) (s : System) (pos : ℕ)
      → n < pos
      → Within (Beyond n) (write_free_buffer rb fuel u p th k s pos)
  unfolding write_free_buffer
  write_free_buffer-Beyond n (b, files) pos h =
      with_value-Within (b, files) (u.get_u64 pos) tt
        (λ data_ptr.
          Within-any {A = Binder × List ℕ}
            (bc_free_buffer rb k.files k.memory (b, files p) p data_ptr)
            (λ r. within (omega (arith, h))))

  write_transaction-Beyond :
      (n : ℕ) (s : System) (pos : ℕ) (reply : Bool)
      → n < pos
      → Within (Beyond n) (write_transaction rb fuel u p th k s pos reply)
  unfolding write_transaction
  write_transaction-Beyond n s pos reply h = with_value-Within s (u.get_transaction pos) tt (λ tr.
      Within-bind (binder_transaction rb k.send fuel s (send_request rb fuel u p th tr reply 0))
        (λ s'. within (omega (arith, h))))

  write_transaction_sg-Beyond :
      (n : ℕ) (s : System) (pos : ℕ) (reply : Bool)
      → n < pos
      → Within (Beyond n) (write_transaction_sg rb fuel u p th k s pos reply)
  unfolding write_transaction_sg
  write_transaction_sg-Beyond n s pos reply h =
      with_value-Within s (u.get_transaction_sg pos) tt (λ r.
        Within-bind
          (binder_transaction rb k.send fuel s (send_request rb fuel u p th r.0 reply r.1))
          (λ s'. within (omega (arith, h))))

  write_death-Beyond :
      (n : ℕ) (s : System) (pos : ℕ) (request : Bool)
      → n < pos
      → Within (Beyond n) (write_death rb fuel u p th k s pos request)
  unfolding write_death
  write_death-Beyond n s pos request h = with_value-Within s (u.get_u32 pos) tt (λ target.
      with_value-Within s (u.get_u64 (pos + 4)) tt
        (λ cookie. on_driver-Within n (pos + 12) s _ (omega (arith, h))))

  write_dead_binder_done-Beyond :
      (n : ℕ) (s : System) (pos : ℕ)
      → n < pos
      → Within (Beyond n) (write_dead_binder_done rb fuel u p th s pos)
  unfolding write_dead_binder_done
  write_dead_binder_done-Beyond n s pos h = with_value-Within s (u.get_u64 pos) tt (λ cookie.
      on_driver-Within n (pos + 8) s (bc_dead_binder_done s.0 p th cookie) (omega (arith, h)))

  write_command-Beyond :
      (n : ℕ) (s : System) (pos : ℕ) (c : Command)
      → n < pos
      → Within (Beyond n) (write_command rb fuel u p th k s pos c)
  unfolding write_command
  write_command-Beyond n s pos Command.bc_increfs h = write_refs-Beyond n s pos true false h
  write_command-Beyond n s pos Command.bc_acquire h = write_refs-Beyond n s pos true true h
  write_command-Beyond n s pos Command.bc_release h = write_refs-Beyond n s pos false true h
  write_command-Beyond n s pos Command.bc_decrefs h = write_refs-Beyond n s pos false false h
  write_command-Beyond n s pos Command.bc_increfs_done h = write_done-Beyond n s pos false h
  write_command-Beyond n s pos Command.bc_acquire_done h = write_done-Beyond n s pos true h
  write_command-Beyond n s pos Command.bc_attempt_acquire h = within tt
  write_command-Beyond n s pos Command.bc_acquire_result h = within tt
  write_command-Beyond n s pos Command.bc_free_buffer h = write_free_buffer-Beyond n s pos h
  write_command-Beyond n s pos Command.bc_transaction h = write_transaction-Beyond n s pos false h
  write_command-Beyond n s pos Command.bc_reply h = write_transaction-Beyond n s pos true h
  write_command-Beyond n s pos Command.bc_transaction_sg h =
      write_transaction_sg-Beyond n s pos false h
  write_command-Beyond n s pos Command.bc_reply_sg h = write_transaction_sg-Beyond n s pos true h
  write_command-Beyond n s pos Command.bc_register_looper h = within h
  write_command-Beyond n s pos Command.bc_enter_looper h = within h
  write_command-Beyond n s pos Command.bc_exit_looper h = within h
  write_command-Beyond n s pos Command.bc_request_death_notification h =
      write_death-Beyond n s pos true h
  write_command-Beyond n s pos Command.bc_clear_death_notification h =
      write_death-Beyond n s pos false h
  write_command-Beyond n s pos Command.bc_dead_binder_done h =
      write_dead_binder_done-Beyond n s pos h

  pub write_at-Beyond :
      (s : System) (pos : ℕ) → Within (Beyond pos) (write_at rb fuel u p th k s pos)
  unfolding write_at
  write_at-Beyond s pos = with_value-Within s (u.get_u32 pos) tt (λ cmd. decoded (decode cmd))
    where
      decoded :
          (o : Option Command)
          → Within (Beyond pos) (elim o [
            | none ↦ ok (some (ends s Errno.einval))
            | some c ↦ write_command rb fuel u p th k s (pos + 4) c
          ])
      decoded none = within tt
      decoded (some c) = write_command-Beyond pos s (pos + 4) c (omega arith)
