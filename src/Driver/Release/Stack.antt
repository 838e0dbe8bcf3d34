-- ===== src/Driver/Release/Stack.antt =====
-- The loop over the stack of a thread that is released: it ends, and only detaches the thread.
use headless_testing.Base.{
  ℕ, ◌+◌, ◌≡◌, Bool, true, if◌then◌else◌, count, Option, none, some, List, [], ◌∷◌,
}
use headless_testing.Driver.State.{Binder, BinderTransaction}
use headless_testing.Driver.Transaction.{is_top}

abbrev pub once : Bool → ℕ
once b = if b then 1 else 0

-- How often a transaction names thread `th`, as its server or as its sender.
abbrev pub names_thread : ℕ → Option BinderTransaction → ℕ
names_thread th none = 0
names_thread th (some tx) = once (is_top tx.to_thread th) + once (is_top tx.from th)

-- How often the transactions of a list name thread `th`.
abbrev pub mentions : ℕ → (ℕ → Option BinderTransaction) → List ℕ → ℕ
mentions th h [] = 0
mentions th h (t ∷ ts) = names_thread th (h t) + mentions th h ts

-- What a transaction becomes when thread `th` goes: where it was the server, the target process and
-- the buffer are cleared with it; where it was the sender, only that; nothing else changes.
pub data Loses (th : ℕ) : Option BinderTransaction → Option BinderTransaction → Type 0 where
  keeps : {o : Option BinderTransaction} → Loses th o o
  loses_to :
      {o : Option BinderTransaction} {tx : BinderTransaction}
      → is_top tx.to_thread th ≡ true
      → Loses th (some (record tx { to_proc = none; to_thread = none; buffer = none })) o
      → Loses th (some tx) o
  loses_from :
      {o : Option BinderTransaction} {tx : BinderTransaction}
      → is_top tx.from th ≡ true
      → Loses th (some (record tx { from = none })) o
      → Loses th (some tx) o

-- Every transaction is in the list once.
abbrev pub Lists : (ℕ → Option BinderTransaction) → List ℕ → Type 0
Lists h ts = (t : ℕ) (tx : BinderTransaction) → h t ≡ some tx → count t ts ≡ 1

-- The loop has counted each mention of the thread that it removed.
pub record Detached (th : ℕ) (ts : List ℕ) (active : ℕ) (b : Binder) (r : Binder × ℕ) : Type 0 where
  pub counted : r.1 + mentions th r.0.txns ts ≡ active + mentions th b.txns ts
  pub loses : (t : ℕ) → Loses th (b.txns t) (r.0.txns t)
  pub threads : r.0.threads ≡ b.threads

record Unlinked (b b' : Binder) : Type 0 where
  pub txns : b'.txns ≡ b.txns
  pub threads : b'.threads ≡ b.threads
