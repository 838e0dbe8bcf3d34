-- ===== src/TransactionLog/Tests.antt =====
-- A log of forty transactions.
use headless_testing.Base.{ℕ, ◌+◌, ◌-◌, ◌≡◌, arith}
use headless_testing.TransactionLog.{binder_transaction_log_show}
use headless_testing.TransactionLog.Shown.{
  log_after, history, kept, binder_transaction_log_show_last,
}

abbrev from_hundred : ℕ → ℕ
from_hundred i = 100 + i

binder_transaction_log_show_last_example :
    binder_transaction_log_show (log_after from_hundred 40)
    ≡ history from_hundred (40 - kept 40) (kept 40)
binder_transaction_log_show_last_example =
    binder_transaction_log_show_last from_hundred 40 (omega arith)
