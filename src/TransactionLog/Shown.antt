-- ===== src/TransactionLog/Shown.antt =====
-- What the log shows after a history of transactions.
use headless_testing.Base.{
  ℕ, zero, suc, ◌+◌, ◌-◌, ◌%◌, ◌^◌, ◌≤◌, ◌<◌, ◌≡◌, refl, List, [], ◌∷◌, arith, leb, ltb, ◌==◌,
  if◌then◌else◌, inc32, Bool-cases, inl, inr,
}
use headless_testing.TransactionLog.{
  BinderTransactionLog, empty_log, binder_transaction_log_add, binder_transaction_log_show,
  entries_from,
}

-- The log after the transactions numbered 0, 1, ..., n - 1 of a history.
pub log_after : (ℕ → ℕ) → ℕ → BinderTransactionLog
log_after h zero = empty_log
log_after h (suc n) = binder_transaction_log_add (log_after h n) (h n)

-- The `n` entries of a history that follow its first `i`.
pub history : (ℕ → ℕ) → ℕ → ℕ → List ℕ
history h i zero = []
history h i (suc n) = h i ∷ history h (suc i) n

-- After `n` transactions: the counter, the flag, and the place of each recent entry.
pub record Holds (h : ℕ → ℕ) (n : ℕ) (log : BinderTransactionLog) : Type 0 where
  pub counter : inc32 log.cur ≡ n
  pub small : log.cur < 2 ^ 32
  pub is_full : log.full ≡ leb 33 n
  pub recent : (i : ℕ) → i < n → n ≤ i + 32 → log.entry (i % 32) ≡ h i

Holds-add :
    (h : ℕ → ℕ) (n : ℕ) (log : BinderTransactionLog)
    → suc n < 2 ^ 32
    → Holds h n log
    → Holds h (suc n) (binder_transaction_log_add log (h n))
unfolding binder_transaction_log_add
Holds-add h n log lt w = record {
  counter = omega (arith, w.counter);
  small = omega arith;
  is_full = ground (arith, w.counter, w.is_full);
  recent = λ i a b. elim (Bool-cases (i == n)) [
    | inl e ↦ ground (arith, w.counter)
    | inr ne ↦ ground (arith, w.counter, w.recent i)
  ];
}

log_after-Holds : (h : ℕ → ℕ) (n : ℕ) → n < 2 ^ 32 → Holds h n (log_after h n)
unfolding log_after
log_after-Holds h zero lt = record {
  counter = omega arith;
  small = omega arith;
  is_full = refl;
  recent = λ i a b. absurd (omega arith);
}
log_after-Holds h (suc n) lt = Holds-add h n (log_after h n) lt (log_after-Holds h n (omega arith))

entries_from-history :
    (h : ℕ → ℕ) (n : ℕ) (log : BinderTransactionLog)
    → n < 2 ^ 32
    → Holds h n log
    → (m i cur : ℕ) → i + m ≤ n
    → n ≤ i + 32
    → cur + m < 2 ^ 32
    → cur % 32 ≡ i % 32
    → entries_from log m cur ≡ history h i m
unfolding entries_from history
entries_from-history h n log lt w zero i cur a b c e = refl
entries_from-history h n log lt w (suc m) i cur a b c e = ground (
  arith,
  e,
  w.recent i,
  entries_from-history h n log lt w m (suc i) (inc32 cur) (omega arith) (omega arith) (omega arith)
      (omega arith),
)

-- How many of `n` entries the ring still has.
abbrev pub kept : ℕ → ℕ
kept n = if ltb n 32 then n else 32

-- After fewer than 2 ^ 32 - 33 transactions the log shows the last 32 of them, or all if there are
-- not as many, the oldest first.
pub binder_transaction_log_show_last :
    (h : ℕ → ℕ) (n : ℕ)
    → n + 33 < 2 ^ 32
    → binder_transaction_log_show (log_after h n) ≡ history h (n - kept n) (kept n)
unfolding binder_transaction_log_show
binder_transaction_log_show_last h n lt =
    let w = log_after-Holds h n (omega arith) in
    elim (Bool-cases (ltb n 32)) [
      | inl few ↦
          rw (w.counter, w.is_full)
            (ground (arith, entries_from-history h n (log_after h n) (omega arith) w n 0 0))
      | inr many ↦
          rw (w.counter, w.is_full)
            (ground (
              arith,
              entries_from-history h n (log_after h n) (omega arith) w 32 (n - 32) (n % 32),
            ))
    ]
