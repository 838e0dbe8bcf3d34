-- ===== src/Kernel/Runs.antt =====
-- Error numbers, ERR_PTR, and runs that BUG() may stop, with fuel or without.
use headless_testing.Base.{ℕ, Bool, true, false, Option, none, some, ◌≡◌, refl}

pub data Errno : Type 0 where
  eperm esrch ebadf enomem efault ebusy einval enospc eagain erestartsys : Errno

-- A pointer that a function returns: an object, NULL, or ERR_PTR(-errno).
pub data Ptr : Type 0 where
  ptr : ℕ → Ptr
  null_ptr : Ptr
  err_ptr : Errno → Ptr

-- A run that BUG() or BUG_ON() may stop.
pub data Run {ℓ} (A : Type ℓ) : Type ℓ where
  ok : A → Run A
  bug : Run A

infixl 5 ◌>>=◌ ◌>>◌
abbrev pub ◌>>=◌ {ℓ κ} : {A : Type ℓ} {B : Type κ} → Run A → (A → Run B) → Run B
ok a >>= f = f a
bug >>= f = bug

abbrev pub ◌>>◌ {ℓ} : {B : Type ℓ} → Run (Unit {0}) → Run B → Run B
m >> k = m >>= λ _. k

abbrev pub bug_on : Bool → Run (Unit {0})
bug_on true = bug
bug_on false = ok tt

-- A run whose loops have fuel: none is lack of it.
infixl 5 ◌>>=?◌
abbrev pub ◌>>=?◌ {ℓ κ} :
    {A : Type ℓ} {B : Type κ} → Run (Option A) → (A → Run (Option B)) → Run (Option B)
bug >>=? f = bug
ok none >>=? f = ok none
ok (some a) >>=? f = f a

-- A run without loops, among those with fuel.
abbrev pub done {ℓ} : {A : Type ℓ} → Run A → Run (Option A)
done bug = bug
done (ok a) = ok (some a)

pub >>=?-eq :
    {A B : Type 0} (m : Run (Option A)) (f : A → Run (Option B)) {b : B}
    → (m >>=? f) ≡ ok (some b)
    → (a : A) × (m ≡ ok (some a)) × (f a ≡ ok (some b))
>>=?-eq bug f h = absurd (cc)
>>=?-eq (ok none) f h = absurd (cc)
>>=?-eq (ok (some a)) f h = (a, refl, h)
