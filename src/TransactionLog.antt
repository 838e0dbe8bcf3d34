-- ===== src/TransactionLog.antt =====
-- binder.c: the ring of the last 32 transactions that debugfs shows.
pub mod Tests
pub mod Shown
use headless_testing.Base.{
  ℕ, zero, suc, ◌+◌, ◌-◌, ◌%◌, ◌^◌, Bool, true, false, not, ◌&&◌, ◌||◌, List, [], ◌∷◌, ltb, leb,
  ◌==◌, if◌then◌else◌, inc32,
}

-- `ARRAY_SIZE(log->entry)`
abbrev pub log_size : ℕ
log_size = 32

-- `struct binder_transaction_log`, whose entries are named by a number each.
pub record BinderTransactionLog : Type 0 where
  pub cur : ℕ
  pub full : Bool
  pub entry : ℕ → ℕ

-- The static log after `atomic_set(&log->cur, ~0U)` in `binder_init`.
abbrev pub empty_log : BinderTransactionLog
empty_log = record { cur = 2 ^ 32 - 1; full = false; entry = λ i. 0 }

-- `binder_transaction_log_add`, and the caller's fill of the entry that it returns.
unfoldable pub binder_transaction_log_add : BinderTransactionLog → ℕ → BinderTransactionLog
binder_transaction_log_add log e =
    let cur = inc32 log.cur in
    record {
      cur = cur;
      full = log.full || leb log_size cur;
      entry = λ i. if i == cur % log_size then e else log.entry i;
    }

-- The loop of `binder_transaction_log_show`: `n` entries from the running index `cur`.
unfoldable pub entries_from : BinderTransactionLog → ℕ → ℕ → List ℕ
entries_from log zero cur = []
entries_from log (suc n) cur = log.entry (cur % log_size) ∷ entries_from log n (inc32 cur)

-- `binder_transaction_log_show`: the entries that it prints, in order.
unfoldable pub binder_transaction_log_show : BinderTransactionLog → List ℕ
unfolding entries_from
binder_transaction_log_show log =
    let count = inc32 log.cur in
    let cur = if ltb count log_size && not log.full then 0 else count % log_size in
    let shown = if ltb log_size count || log.full then log_size else count in
    entries_from log shown cur
