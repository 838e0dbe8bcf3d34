-- ===== src/Driver/Read/Turns.antt =====
-- One piece of work, with room for the largest return, stays within the read buffer.
use headless_testing.Base.{
  ℕ, ◌+◌, ◌≤◌, Bool, true, false, not, ◌&&◌, Option, none, some, List, ◌==◌, arith, if◌then◌else◌,
}
use headless_testing.Kernel.{
  Always-any, gives, Within, within, Within-any, Within-bind, Within-Always, Within-done,
  Within-option, Errno,
}
use headless_testing.RbTree.{RbLib}
use headless_testing.Driver.State.{
  Binder, BinderNode, BinderTransaction, BufferPtr, Reply, Work, transaction_work,
  transaction_complete, node_work, death_work, return_error_work, reply_error_work,
}
use headless_testing.Alloc.State.{find, BinderBuffer}
use headless_testing.Driver.Transaction.{binder_cleanup_transaction}
use headless_testing.Driver.Send.Target.{binder_get_txn_from}
use headless_testing.Driver.Send.Failure.{drop_thread}
use headless_testing.Driver.Counting.{NodeReturn}
use headless_testing.Driver.Death.{
  DeathReturn, br_dead_binder, br_clear_death_notification_done, read_death,
}
use headless_testing.Driver.Read.Returns.{
  ReadBuffer, Reading, Return, TransactionReturn, transaction_return, reply_return, death_return,
  return_size, Turn, continues, breaks, fails, append_return, append_nodes, with_driver, lend_at,
  describe, is_reply, read_return_error, read_reply_error, read_complete, read_death_work,
  after_death, after_node, with_secctx, fail_transaction, give_transaction, hand_over,
  put_transaction, read_transaction, read_work,
}
use headless_testing.Driver.Read.Fits.{
  IsWithin, append_return-IsWithin, append_nodes-IsWithin, read_node-few,
}

-- No transaction takes more than the room that is asked for.
transaction_size :
    (tr : TransactionReturn) (reply : Bool)
    → return_size (with_secctx tr (if reply then reply_return tr else transaction_return tr)) ≤ 76
transaction_size tr reply = ground arith

module _ (size consumed : ℕ) where
  -- However a turn ends, what was put is within the buffer.
  pub data TurnWithin : Turn → Type 0 where
    continued : {r : Reading} → IsWithin size consumed r → TurnWithin (continues r)
    broke : {r : Reading} → IsWithin size consumed r → TurnWithin (breaks r)
    failing : {r : Reading} {e : Errno} → IsWithin size consumed r → TurnWithin (fails r e)

  -- Another driver changes nothing in the buffer.
  pub with_driver-IsWithin :
      (r : Reading) (b : Binder)
      → IsWithin size consumed r
      → IsWithin size consumed (with_driver r b)
  with_driver-IsWithin r b w = record { in_order = w.in_order; fits = w.fits }

  if_within :
      (c : Bool) (x y : Turn) → TurnWithin x → TurnWithin y → TurnWithin (if c then x else y)
  if_within true x y h k = h
  if_within false x y h k = k

  after_death-TurnWithin :
      (r : Reading) (x : DeathReturn) → IsWithin size consumed r → TurnWithin (after_death r x)
  after_death-TurnWithin r (br_dead_binder cookie) w = broke w
  after_death-TurnWithin r (br_clear_death_notification_done cookie) w = continued w

  after_node-TurnWithin :
      (r : Reading) (nd : BinderNode) (b : Binder) (xs : List NodeReturn) (e : Option Errno)
      → IsWithin size consumed (append_nodes r b xs nd.ptr nd.cookie)
      → TurnWithin (after_node r nd (b, xs, e))
  after_node-TurnWithin r nd b xs none w = continued w
  after_node-TurnWithin r nd b xs (some e) w = failing w

  module _ (rb : RbLib) (fuel : ℕ) (u : ReadBuffer) (p th : ℕ) where
    fail_transaction-Within :
        (r : Reading) (b : Binder) (t : ℕ) (from : Option ℕ)
        → IsWithin size consumed r
        → Within TurnWithin (fail_transaction rb fuel u p th r b t from)
    unfolding fail_transaction
    fail_transaction-Within r b t from w = Within-bind (drop_thread rb b from) (λ b1.
        Within-bind (binder_cleanup_transaction rb fuel b1 t Reply.br_failed_reply)
          (λ b2. within (failing (with_driver-IsWithin r b2 w))))

    give_transaction-Within :
        (r : Reading) (b : Binder) (t : ℕ) (bp : BufferPtr) (from : Option ℕ) (served : Bool)
        (x : Return)
        → IsWithin size consumed r
        → r.ptr + return_size x ≤ size
        → Within TurnWithin (give_transaction rb fuel u p th r b t bp from served x)
    unfolding give_transaction
    give_transaction-Within r b t bp from served x w h = Within-bind (drop_thread rb b from) (λ b1.
        Within-bind {A = Binder} _
          (λ b2. within (broke (append_return-IsWithin size consumed r b2 x w h))))

    hand_over-Within :
        (c : Bool) (r : Reading) (b : Binder) (t : ℕ) (bp : BufferPtr) (from : Option ℕ)
        (served : Bool) (x : Return)
        → IsWithin size consumed r
        → r.ptr + return_size x ≤ size
        → Within TurnWithin (hand_over rb fuel u p th c r b t bp from served x)
    unfolding hand_over
    hand_over-Within true r b t bp from served x w h =
        give_transaction-Within r b t bp from served x w h
    hand_over-Within false r b t bp from served x w h = fail_transaction-Within r b t from w

    put_transaction-Within :
        (r : Reading) (tx : BinderTransaction) (t : ℕ) (bp : BufferPtr) (bf : BinderBuffer)
        (lent : Binder × ℕ × ℕ) (held : Binder × Option ℕ)
        → IsWithin size consumed r
        → r.ptr + 76 ≤ size
        → Within TurnWithin (put_transaction rb fuel u p th r tx t bp bf lent held)
    unfolding put_transaction
    put_transaction-Within r tx t bp bf lent held w h =
        let tr = describe u held.0 p tx bf lent.1 lent.2 held.1 in
        let reply = is_reply bf.target_node in
        let served = not tx.one_way && not (reply && tr.secctx == 0) in
        let x = with_secctx tr (if reply then reply_return tr else transaction_return tr) in
        let most = transaction_size tr reply in
        hand_over-Within (u.put_u32 r.ptr && u.copy_transaction (r.ptr + 4)) r held.0 t bp held.1
          served x w (omega (arith, h, most))

    read_transaction-Within :
        (r : Reading) (t : ℕ)
        → IsWithin size consumed r
        → r.ptr + 76 ≤ size
        → Within TurnWithin (read_transaction rb fuel u p th r t)
    unfolding read_transaction
    read_transaction-Within r t w h = Within-option (r.driver.txns t) (λ tx.
        Within-option tx.buffer (λ bp.
          Within-option (find bp.addr (r.driver.allocs bp.owner).buffers) (λ bf.
            Within-any {A = Binder × ℕ × ℕ} (lend_at r.driver th t tx bf.target_node) (λ lent.
              Within-any {A = Binder × Option ℕ} (binder_get_txn_from lent.0 t)
                (λ held. put_transaction-Within r tx t bp bf lent held w h)))))

    pub read_work-Within :
        (r : Reading) (w : Work)
        → IsWithin size consumed r
        → r.ptr + 76 ≤ size
        → Within TurnWithin (read_work rb fuel u p th r w)
    unfolding read_work read_return_error read_reply_error read_complete read_death_work
    read_work-Within r (transaction_work t) w h = read_transaction-Within r t w h
    read_work-Within r (return_error_work e) w h = within (
        if_within (u.put_u32 r.ptr) _ _
          (continued (append_return-IsWithin size consumed r _ _ w (omega (arith, h)))) (failing w))
    read_work-Within r (reply_error_work e) w h = within (
        if_within (u.put_u32 r.ptr) _ _
          (continued (append_return-IsWithin size consumed r _ _ w (omega (arith, h)))) (failing w))
    read_work-Within r (transaction_complete t) w h = within (
        if_within (u.put_u32 r.ptr) _ _
          (continued (append_return-IsWithin size consumed r _ _ w (omega (arith, h)))) (failing w))
    read_work-Within r (node_work n) w h = Within-option (r.driver.nodes n) (λ nd.
        Within-Always {A = Binder × List NodeReturn × Option Errno} _
          (read_node-few rb (u.put_node r.ptr) r.driver p n)
          (λ x few. within (
            after_node-TurnWithin r nd x.0 x.1 x.2 (
              append_nodes-IsWithin size consumed r x.0 x.1 nd.ptr nd.cookie w
                (omega (arith, h, few))))))
    read_work-Within r (death_work d) w h = Within-done (
        Always-any {A = Binder × DeathReturn} (read_death r.driver p d) (λ x. gives (
          if_within (u.put_u32 r.ptr && u.put_u64 (r.ptr + 4)) _ _
            (after_death-TurnWithin (append_return r x.0 (death_return x.1)) x.1
              (append_return-IsWithin size consumed r x.0 (death_return x.1) w (omega (arith, h))))
            (failing (with_driver-IsWithin r x.0 w)))))
