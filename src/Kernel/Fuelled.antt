-- ===== src/Kernel/Fuelled.antt =====
-- Runs that have fuel enough.
use headless_testing.Base.{Bool, true, false, Option, none, some, ◌≡◌, refl, sym, subst}
use headless_testing.Kernel.Runs.{Run, ok, bug, ◌>>=◌, ◌>>◌, bug_on, ◌>>=?◌, done}
use headless_testing.Kernel.Partial.{Always, stops, gives}

-- The run has fuel enough.
pub data Finishes {A : Type 0} : Run (Option A) → Type 0 where
  crashed : Finishes bug
  finished : {a : A} → Finishes (ok (some a))

pub Finishes-bind :
    {A B : Type 0} {m : Run (Option A)} {f : A → Run (Option B)}
    → Finishes m
    → ((a : A) → m ≡ ok (some a) → Finishes (f a))
    → Finishes (m >>=? f)
Finishes-bind crashed k = crashed
Finishes-bind (finished {a = a}) k = k a refl

pub Finishes-any :
    {A B : Type 0} (m : Run A) {f : A → Run (Option B)}
    → ((a : A) → m ≡ ok a → Finishes (f a))
    → Finishes (m >>= f)
Finishes-any bug k = crashed
Finishes-any (ok a) k = k a refl

pub Finishes-done : {A : Type 0} (m : Run A) → Finishes (done m)
Finishes-done bug = crashed
Finishes-done (ok a) = finished

-- The run has fuel enough, and what it gives, unless it stops at a BUG, has the property.
pub data Ends {A : Type 0} (P : A → Type 0) : Run (Option A) → Type 0 where
  stopped : Ends P bug
  ended : {a : A} → P a → Ends P (ok (some a))

pub Ends-bind :
    {A B : Type 0} {P : A → Type 0} {Q : B → Type 0} {m : Run (Option A)} {f : A → Run (Option B)}
    → Ends P m
    → ((a : A) → P a → Ends Q (f a))
    → Ends Q (m >>=? f)
Ends-bind stopped k = stopped
Ends-bind (ended {a = a} p) k = k a p

pub Ends-Finishes :
    {A B : Type 0} {Q : B → Type 0} {m : Run (Option A)} (f : A → Run (Option B))
    → Finishes m
    → ((a : A) → Ends Q (f a))
    → Ends Q (m >>=? f)
Ends-Finishes f crashed k = stopped
Ends-Finishes f (finished {a = a}) k = k a

pub Ends-bug_on :
    {A : Type 0} {P : A → Type 0} (c : Bool) {m : Run (Option A)}
    → Ends P m
    → Ends P (bug_on c >> m)
Ends-bug_on true h = stopped
Ends-bug_on false h = h

-- A part without loops.
pub Ends-done : {A : Type 0} {P : A → Type 0} {m : Run A} → Always P m → Ends P (done m)
Ends-done stops = stopped
Ends-done (gives p) = ended p

pub Ends-map :
    {A : Type 0} {P Q : A → Type 0} {m : Run (Option A)}
    → Ends P m
    → ((a : A) → P a → Q a)
    → Ends Q m
Ends-map stopped k = stopped
Ends-map (ended {a = a} p) k = ended (k a p)

-- Reads through a pointer to an object that may be missing.
pub Ends-option :
    {A B : Type 0} {P : B → Type 0} (o : Option A) {f : A → Run (Option B)}
    → ((a : A) → Ends P (f a))
    → Ends P (elim o [ none ↦ bug | some a ↦ f a ])
Ends-option none k = stopped
Ends-option (some a) k = k a

pub Ends-some :
    {A B : Type 0} {P : B → Type 0} (o : Option A) {a : A} (f : A → Run (Option B))
    (m : Run (Option B))
    → o ≡ some a
    → Ends P (f a)
    → Ends P (elim o [ none ↦ m | some a ↦ f a ])
Ends-some {P = P} o f m e h = subst (λ o'. Ends P (elim o' [ none ↦ m | some a ↦ f a ])) (sym e) h

pub Ends-none :
    {A B : Type 0} {P : B → Type 0} (o : Option A) (f : A → Run (Option B)) {m : Run (Option B)}
    → o ≡ none
    → Ends P m
    → Ends P (elim o [ none ↦ m | some a ↦ f a ])
Ends-none {P = P} o f {m = m} e h =
    subst (λ o'. Ends P (elim o' [ none ↦ m | some a ↦ f a ])) (sym e) h

pub Ends-split :
    {A B : Type 0} {P : B → Type 0} (o : Option A) {m : Run (Option B)} {f : A → Run (Option B)}
    → Ends P m
    → ((a : A) → Ends P (f a))
    → Ends P (elim o [ none ↦ m | some a ↦ f a ])
Ends-split none h k = h
Ends-split (some a) h k = k a

pub Ends-cases :
    {B : Type 0} {P : B → Type 0} (c : Bool) {m n : Run (Option B)}
    → (c ≡ true → Ends P m)
    → (c ≡ false → Ends P n)
    → Ends P (elim c [ true ↦ m | false ↦ n ])
Ends-cases true h k = h refl
Ends-cases false h k = k refl

-- A read that also says what was read.
pub Ends-read :
    {A B : Type 0} {P : B → Type 0} (o : Option A) {f : A → Run (Option B)}
    → ((a : A) → o ≡ some a → Ends P (f a))
    → Ends P (elim o [ none ↦ bug | some a ↦ f a ])
Ends-read none k = stopped
Ends-read (some a) k = k a refl

pub Ends-any :
    {A B : Type 0} {P : B → Type 0} (m : Run A) {f : A → Run (Option B)}
    → ((a : A) → Ends P (f a))
    → Ends P (m >>= f)
Ends-any bug k = stopped
Ends-any (ok a) k = k a

pub Ends-done-any :
    {A B : Type 0} {P : B → Type 0} (m : Run A) {f : A → Run (Option B)}
    → ((a : A) → Ends P (f a))
    → Ends P (done m >>=? f)
Ends-done-any bug k = stopped
Ends-done-any (ok a) k = k a

-- A part without loops, whose result the rest may rely on.
pub Ends-Always :
    {A B : Type 0} {P : A → Type 0} {Q : B → Type 0} {m : Run A} (f : A → Run (Option B))
    → Always P m
    → ((a : A) → P a → Ends Q (f a))
    → Ends Q (m >>= f)
Ends-Always f stops k = stopped
Ends-Always f (gives {a = a} p) k = k a p

pub Ends-cases_of :
    {A B : Type 0} {P : B → Type 0} (o : Option A) {m : Run (Option B)} {f : A → Run (Option B)}
    → Ends P m
    → ((a : A) → o ≡ some a → Ends P (f a))
    → Ends P (elim o [ none ↦ m | some a ↦ f a ])
Ends-cases_of none h k = h
Ends-cases_of (some a) h k = k a refl
