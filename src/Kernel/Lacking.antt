-- ===== src/Kernel/Lacking.antt =====
-- What a run with fuel gives, if it gives anything.
use headless_testing.Base.{Bool, true, false, Option, none, some, ◌≡◌, refl}
use headless_testing.Kernel.Runs.{Run, ok, bug, ◌>>=◌, ◌>>=?◌, done}
use headless_testing.Kernel.Partial.{Always, stops, gives}

-- What the run gives, if it gives anything, has the property.
pub data Within {A : Type 0} (P : A → Type 0) : Run (Option A) → Type 0 where
  faults : Within P bug
  lacks : Within P (ok none)
  within : {a : A} → P a → Within P (ok (some a))

pub Within-any :
    {A B : Type 0} {P : B → Type 0} (m : Run A) {f : A → Run (Option B)}
    → ((a : A) → Within P (f a))
    → Within P (m >>= f)
Within-any bug k = faults
Within-any (ok a) k = k a

pub Within-bind :
    {A B : Type 0} {P : B → Type 0} (m : Run (Option A)) {f : A → Run (Option B)}
    → ((a : A) → Within P (f a))
    → Within P (m >>=? f)
Within-bind bug k = faults
Within-bind (ok none) k = lacks
Within-bind (ok (some a)) k = k a

-- Two continuations that agree where it matters.
pub Within-same :
    {A B : Type 0} {P : A → Type 0} {m : Run (Option A)} (f g : A → Run (Option B))
    → Within P m
    → ((a : A) → P a → f a ≡ g a)
    → (m >>=? f) ≡ (m >>=? g)
Within-same f g faults k = refl
Within-same f g lacks k = refl
Within-same f g (within {a = a} p) k = k a p

-- A part without loops, whose result the rest may rely on.
pub Within-Always :
    {A B : Type 0} {P : A → Type 0} {Q : B → Type 0} {m : Run A} (f : A → Run (Option B))
    → Always P m
    → ((a : A) → P a → Within Q (f a))
    → Within Q (m >>= f)
Within-Always f stops k = faults
Within-Always f (gives {a = a} p) k = k a p

pub Within-done : {A : Type 0} {P : A → Type 0} {m : Run A} → Always P m → Within P (done m)
Within-done stops = faults
Within-done (gives p) = within p

pub Within-option :
    {A B : Type 0} {P : B → Type 0} (o : Option A) {f : A → Run (Option B)}
    → ((a : A) → Within P (f a))
    → Within P (elim o [ none ↦ bug | some a ↦ f a ])
Within-option none k = faults
Within-option (some a) k = k a

pub Within-if :
    {B : Type 0} {P : B → Type 0} (c : Bool) {m n : Run (Option B)}
    → Within P m
    → Within P n
    → Within P (elim c [ true ↦ m | false ↦ n ])
Within-if true h k = h
Within-if false h k = k

-- A part with loops, whose result the rest may rely on.
pub Within-chain :
    {A B : Type 0} {P : A → Type 0} {Q : B → Type 0} {m : Run (Option A)} (f : A → Run (Option B))
    → Within P m
    → ((a : A) → P a → Within Q (f a))
    → Within Q (m >>=? f)
Within-chain f faults k = faults
Within-chain f lacks k = lacks
Within-chain f (within {a = a} p) k = k a p

pub Within-split :
    {A B : Type 0} {P : B → Type 0} (o : Option A) {m : Run (Option B)} {f : A → Run (Option B)}
    → Within P m
    → ((a : A) → Within P (f a))
    → Within P (elim o [ none ↦ m | some a ↦ f a ])
Within-split none h k = h
Within-split (some a) h k = k a
