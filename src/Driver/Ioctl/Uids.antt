-- ===== src/Driver/Ioctl/Uids.antt =====
-- Who may become a context manager.
use headless_testing.Base.{
  ℕ, ◌≡◌, refl, ap, ◌⊎◌, inl, inr, false, Option, none, some, arith, Bool-cases,
}
use headless_testing.Kernel.{Always, gives, Always-any, Always-cases, Errno}
use headless_testing.RbTree.{RbLib}
use headless_testing.Driver.State.{Binder, write}
use headless_testing.Driver.Create.{FlatBinder, binder_new_node}
use headless_testing.Driver.Ioctl.{
  Contexts, ManagerKernel, object_or_none, wrong_uid, become_manager, add_manager,
  binder_ioctl_set_ctx_mgr,
}

-- The request changed nothing, or it was for a context without a manager, allowed by the hook, and by
-- the context's user, who is the user of the context from then on, also without memory for the node.
pub data Settled (k : ManagerKernel) (b : Binder) (uids : ℕ → Option ℕ) (c : ℕ)
    : Contexts × Option Errno → Type 0 where
  refused : {e : Errno} → Settled k b uids c ((b, uids), some e)
  claimed :
      {b' : Binder} {e : Option Errno}
      → b.context_mgr c ≡ none
      → k.security ≡ none
      → (uids c ≡ none) ⊎ (uids c ≡ some k.curr_euid)
      → (e ≡ none) ⊎ (e ≡ some Errno.enomem)
      → Settled k b uids c ((b', write c (some k.curr_euid) uids), e)

right_uid : (o : Option ℕ) (euid : ℕ) → wrong_uid o euid ≡ false → (o ≡ none) ⊎ (o ≡ some euid)
right_uid none euid h = inl refl
right_uid (some uid) euid h =
    let same : uid ≡ euid = ground (arith, h) in inr (ap (λ x. some x) same)

module _ (rb : RbLib) (k : ManagerKernel) (b : Binder) (uids : ℕ → Option ℕ) (c : ℕ) where
  add_manager-Settled :
      (p : ℕ) (x : Binder × Option ℕ)
      → b.context_mgr c ≡ none
      → k.security ≡ none
      → (uids c ≡ none) ⊎ (uids c ≡ some k.curr_euid)
      → Always (Settled k b uids c) (add_manager rb (b, write c (some k.curr_euid) uids) p c x)
  unfolding add_manager
  add_manager-Settled p (b', none) m s u = gives (claimed m s u (inr refl))
  add_manager-Settled p (b', some n) m s u =
      Always-any (become_manager rb b' c n) (λ managed. gives (claimed m s u (inl refl)))

-- On every branch a request to be the manager of a process's context fails and changes nothing, or
-- the context had no manager, the security hook allowed it, and the context's user was not set or
-- was the caller's: the caller is its user then, no other context's user changes, and the request
-- succeeds or finds no memory.
pub binder_ioctl_set_ctx_mgr-Settled :
    (rb : RbLib) (k : ManagerKernel) (b : Binder) (uids : ℕ → Option ℕ) (p : ℕ)
    (fbo : Option FlatBinder)
    → Always (Settled k b uids (b.procs p).context) (binder_ioctl_set_ctx_mgr rb k (b, uids) p fbo)
unfolding binder_ioctl_set_ctx_mgr
binder_ioctl_set_ctx_mgr-Settled rb k b uids p fbo =
    let c = (b.procs p).context in
    Always-cases (b.context_mgr c) (λ m. gives refused)
      (λ free.
        Always-cases k.security (λ e. gives refused)
          (λ allowed. elim (Bool-cases (wrong_uid (uids c) k.curr_euid)) [
            | inl e ↦ rw e (gives refused)
            | inr e ↦ rw e (
                Always-any (binder_new_node rb b p k.kzalloc (object_or_none fbo)) (λ x.
                  add_manager-Settled rb k b uids c p x free allowed
                    (right_uid (uids c) k.curr_euid e)))
          ]))
