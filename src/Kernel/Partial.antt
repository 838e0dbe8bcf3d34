-- ===== src/Kernel/Partial.antt =====
-- What a run without fuel gives.
use headless_testing.Base.{Bool, true, false, not, Option, none, some, ◌≡◌, refl, sym, subst}
use headless_testing.Kernel.Runs.{Run, ok, bug, ◌>>=◌, ◌>>◌, bug_on}

-- The run stops, or what it gives has the property.
pub data Always {A : Type 0} (P : A → Type 0) : Run A → Type 0 where
  stops : Always P bug
  gives : {a : A} → P a → Always P (ok a)

pub Always-bind :
    {A B : Type 0} {P : A → Type 0} {Q : B → Type 0} {m : Run A} (f : A → Run B)
    → Always P m
    → ((a : A) → P a → Always Q (f a))
    → Always Q (m >>= f)
Always-bind f stops k = stops
Always-bind f (gives {a = a} p) k = k a p

pub Always-bug_on :
    {B : Type 0} {Q : B → Type 0} (c : Bool) {m : Run B} → Always Q m → Always Q (bug_on c >> m)
Always-bug_on true h = stops
Always-bug_on false h = h

pub Always-ok : {A : Type 0} {P : A → Type 0} {a : A} → Always P (ok a) → P a
Always-ok (gives p) = p

pub Always-any :
    {A B : Type 0} {Q : B → Type 0} (m : Run A) {f : A → Run B}
    → ((a : A) → Always Q (f a))
    → Always Q (m >>= f)
Always-any bug k = stops
Always-any (ok a) k = k a

pub Always-map :
    {A : Type 0} {P Q : A → Type 0} {m : Run A} → Always P m → ((a : A) → P a → Q a) → Always Q m
Always-map stops k = stops
Always-map (gives {a = a} p) k = gives (k a p)

pub Always-option :
    {A B : Type 0} {Q : B → Type 0} (o : Option A) {m : Run B} {f : A → Run B}
    → Always Q m
    → ((a : A) → o ≡ some a → Always Q (f a))
    → Always Q (elim o [ none ↦ m | some a ↦ f a ])
Always-option none h k = h
Always-option (some a) h k = k a refl

pub Always-eq :
    {A B : Type 0} {Q : B → Type 0} (m : Run A) {f : A → Run B}
    → ((a : A) → m ≡ ok a → Always Q (f a))
    → Always Q (m >>= f)
Always-eq bug k = stops
Always-eq (ok a) k = k a refl

-- The run does not stop, and what it gives has the property.
pub data Gives {A : Type 0} (P : A → Type 0) : Run A → Type 0 where
  gave : {a : A} → P a → Gives P (ok a)

pub Always-some :
    {A B : Type 0} {P : B → Type 0} (o : Option A) {a : A} (f : A → Run B) (m : Run B)
    → o ≡ some a
    → Always P (f a)
    → Always P (elim o [ none ↦ m | some a ↦ f a ])
Always-some {P = P} o f m e h =
    subst (λ o'. Always P (elim o' [ none ↦ m | some a ↦ f a ])) (sym e) h

-- A guard that also says that it holds.
pub Always-guard :
    {B : Type 0} {Q : B → Type 0} (c : Bool) {m : Run B}
    → (c ≡ true → Always Q m)
    → Always Q (bug_on (not c) >> m)
Always-guard true h = h refl
Always-guard false h = stops

pub Gives-ok : {A : Type 0} {P : A → Type 0} {a : A} → Gives P (ok a) → P a
Gives-ok (gave p) = p

pub Gives-eq :
    {A B : Type 0} {P : B → Type 0} {m : Run A} {a : A} (f : A → Run B)
    → m ≡ ok a
    → Gives P (f a)
    → Gives P (m >>= f)
Gives-eq {P = P} f e h = subst (λ m'. Gives P (m' >>= f)) (sym e) h

pub Always-cases :
    {A B : Type 0} {Q : B → Type 0} (o : Option A) {m : Run B} {f : A → Run B}
    → ((a : A) → Always Q (f a))
    → (o ≡ none → Always Q m)
    → Always Q (elim o [ none ↦ m | some a ↦ f a ])
Always-cases none k h = h refl
Always-cases (some a) k h = k a
