-- ===== src/Driver/Translate/Faithful.antt =====
-- What the target of a transaction sees of an object of its sender.
use headless_testing.Base.{
  ℕ, ◌%◌, ◌^◌, ◌≡◌, refl, sym, ap, subst, ◌∙◌, arith, Bool, false, not, Option, none, some, ◌==◌,
  if_both, if_cases,
}
use headless_testing.Kernel.{
  Errno, Always, stops, gives, Always-any, Always-bind, Always-option, Always-map, Always-eq,
  Always-cases, Always-ok, ok,
}
use headless_testing.RbTree.{RbLib}
use headless_testing.Driver.State.{
  Binder, BinderNode, BinderRef, BinderRefData, WorkList, thread_todo,
}
use headless_testing.Driver.Node.{binder_inc_node, binder_dec_node_tmpref}
use headless_testing.Driver.Ref.{
  IncResult, inc_error, inc_ref, binder_get_node_from_ref, binder_inc_ref_for_node, binder_inc_ref,
  binder_get_ref_for_node, with_data,
}
use headless_testing.Driver.Transaction.{is_top}
use headless_testing.Driver.Transaction.OneWay.{is_top-same}
use headless_testing.Driver.Translate.{
  FlatObject, is_strong_type, handle_type, binder_type, TransferKernel, Translation, to_handle,
  put_translated, node_of_object, refer_target, binder_translate_binder, to_object,
  binder_translate_handle,
}

-- What a lookup of a node ends with: the heap, and the node that the object or the handle stands for.
abbrev pub NodeFound : Type 1
NodeFound = Binder → ℕ → BinderNode → Type 0

-- The node of the sender's object: the one that `node_of_object` finds or makes for its pointer, and
-- that has its cookie.
pub record IsNodeOf (rb : RbLib) (b : Binder) (k : TransferKernel) (fp : FlatObject) (p : ℕ)
    (c : Binder) (n : ℕ) (nd : BinderNode) : Type 0 where
  pub looked_up : node_of_object rb b p k fp ≡ ok (c, some n)
  pub there : c.nodes n ≡ some nd
  pub same_cookie : fp.cookie ≡ nd.cookie

-- The node of a handle of process `p`.
pub record IsNodeBehind (b : Binder) (fp : FlatObject) (p : ℕ) (c : Binder) (n : ℕ)
    (nd : BinderNode) : Type 0 where
  pub rdata : BinderRefData
  pub looked_up :
      binder_get_node_from_ref b p (fp.value % 2 ^ 32) (is_strong_type fp.hdr_type)
      ≡ ok (c, some (n, rdata))
  pub there : c.nodes n ≡ some nd

module _ (rb : RbLib) (k : TransferKernel) (target : ℕ) (fp : FlatObject) (Node : NodeFound) where
  -- An error, with the object as it was; or a handle of the same strength without a cookie, whose
  -- number is that of a reference, which the heap has, and which the target has just been given on
  -- the node.
  pub data Hides : FlatObject → Option Errno → Type 0 where
    refused : (e : Errno) → Hides fp (some e)
    as_handle :
        {c c' : Binder} {n r : ℕ} {nd : BinderNode} {rf : BinderRef} (l : Option WorkList)
        → Node c n nd
        → binder_inc_ref_for_node rb c target n (is_strong_type fp.hdr_type) l k.kzalloc_ref
          ≡ ok (c', inc_ref rf.ref_data)
        → c'.refs r ≡ some rf
        → Hides
            (record fp {
              hdr_type = handle_type (is_strong_type fp.hdr_type);
              value = rf.ref_data.desc;
              cookie = 0;
            })
            none

  -- Or, only in the process that owns the node, the object with the node's own pointer and cookie.
  pub data Carries : FlatObject → Option Errno → Type 0 where
    hides : {fp' : FlatObject} {e : Option Errno} → Hides fp' e → Carries fp' e
    comes_home :
        {c : Binder} {n : ℕ} {nd : BinderNode}
        → Node c n nd
        → nd.proc ≡ some target
        → Carries
            (record fp {
              hdr_type = binder_type (is_strong_type fp.hdr_type);
              value = nd.ptr;
              cookie = nd.cookie;
            })
            none

-- The handle that is given is that of a reference in the heap.
abbrev InHeap : Binder × IncResult → Type 0
InHeap (b, inc_error e) = Unit {0}
InHeap (b, inc_ref rdata) =
    (r : ℕ) × (rf : BinderRef) × (b.refs r ≡ some rf) × (rdata ≡ rf.ref_data)

with_data-InHeap : (r : ℕ) (x : Binder × Option Errno) → Always InHeap (with_data r x)
with_data-InHeap r (b, some e) = gives tt
with_data-InHeap r (b, none) = Always-option (b.refs r) stops (λ rf e. gives (r, rf, e, refl))

binder_inc_ref_for_node-InHeap :
    (rb : RbLib) (b : Binder) (p n : ℕ) (strong : Bool) (l : Option WorkList) (kzalloc : Option ℕ)
    → Always InHeap (binder_inc_ref_for_node rb b p n strong l kzalloc)
unfolding binder_inc_ref_for_node
binder_inc_ref_for_node-InHeap rb b p n strong l kzalloc =
    Always-any (binder_get_ref_for_node rb b p n none) (λ found.
      Always-cases found.1
        (λ r. Always-any (binder_inc_ref found.0 r strong l) (λ x. with_data-InHeap r x))
        (λ e. Always-option kzalloc (gives tt) (λ new_ref f.
          Always-any (binder_get_ref_for_node rb found.0 p n (some new_ref)) (λ made.
            Always-option made.1 stops
              (λ r g. Always-any (binder_inc_ref made.0 r strong l) (λ x. with_data-InHeap r x))))))

-- A property of the object and the error, not of the driver.
abbrev pub OfObject : (FlatObject → Option Errno → Type 0) → Translation → Type 0
OfObject P (b, fp, e) = P fp e

module _ (rb : RbLib) where
  put_translated-OfObject :
      (P : FlatObject → Option Errno → Type 0) (n : ℕ) (r : Translation)
      → OfObject P r
      → Always (OfObject P) (put_translated rb n r)
  unfolding put_translated
  put_translated-OfObject P n (b, fp, e) h =
      Always-any (binder_dec_node_tmpref rb b n) (λ b'. gives h)

  to_handle-Hides :
      (k : TransferKernel) (target : ℕ) (fp : FlatObject) (Node : NodeFound) (c : Binder) (n : ℕ)
      (nd : BinderNode) (l : Option WorkList) (x : Binder × IncResult)
      → Node c n nd
      → binder_inc_ref_for_node rb c target n (is_strong_type fp.hdr_type) l k.kzalloc_ref ≡ ok x
      → InHeap x
      → OfObject (Hides rb k target fp Node) (to_handle fp (is_strong_type fp.hdr_type) x)
  to_handle-Hides k target fp Node c n nd l (c', inc_error e) w m h = refused e
  to_handle-Hides k target fp Node c n nd l (c', inc_ref rdata) w m (r, rf, at_r, same) =
      subst
        (λ (d : BinderRefData).
          Hides rb k target fp Node
            (record fp {
              hdr_type = handle_type (is_strong_type fp.hdr_type);
              value = d.desc;
              cookie = 0;
            })
            none)
        (sym same) (as_handle l w (m ∙ ap (λ d. ok (c', inc_ref d)) same) at_r)

  refer_target-Hides :
      (k : TransferKernel) (target : ℕ) (fp : FlatObject) (Node : NodeFound) (c : Binder) (n : ℕ)
      (nd : BinderNode) (l : Option WorkList)
      → Node c n nd
      → Always (OfObject (Hides rb k target fp Node)) (refer_target rb c k fp target n l)
  unfolding refer_target
  refer_target-Hides k target fp Node c n nd l w =
      let strong = is_strong_type fp.hdr_type in
      Always-eq (binder_inc_ref_for_node rb c target n strong l k.kzalloc_ref) (λ x m. gives (
        to_handle-Hides k target fp Node c n nd l x w m (
          Always-ok (
            subst (Always InHeap) m
              (binder_inc_ref_for_node-InHeap rb c target n strong l k.kzalloc_ref)))))

  -- Unless the driver stops at a BUG, an object that a transaction carries is refused and left as it
  -- was, or becomes a handle of the same strength, without a cookie, whose number is that of the
  -- reference that the target is given on the object's node, in place of the sender's pointer.
  pub binder_translate_binder-Hides :
      (b : Binder) (k : TransferKernel) (fp : FlatObject) (target th : ℕ)
      → Always
          (OfObject (Hides rb k target fp (IsNodeOf rb b k fp (b.threads th).proc)))
          (binder_translate_binder rb b k fp target th)
  unfolding binder_translate_binder
  binder_translate_binder-Hides b k fp target th =
      let p = (b.threads th).proc in
      let Node = IsNodeOf rb b k fp p in
      let P = Always (OfObject (Hides rb k target fp Node)) in
      Always-eq (node_of_object rb b p k fp) (λ found m.
        Always-option found.1 (gives (refused Errno.enomem)) (λ n e.
          Always-option (found.0.nodes n) stops (λ nd g.
            Always-bind (put_translated rb n)
              (if_cases P (not (fp.cookie == nd.cookie)) (λ c. gives (refused Errno.einval))
                (λ c. if_both P (not k.may_transfer) (gives (refused Errno.eperm)) (
                  refer_target-Hides k target fp Node found.0 n nd (some (thread_todo th)) (record {
                    looked_up = m ∙ ap (λ o. ok (found.0, o)) e;
                    there = g;
                    same_cookie = ground (arith, c);
                  }))))
              (λ r h. put_translated-OfObject (Hides rb k target fp Node) n r h))))

  -- Unless the driver stops at a BUG, a handle that a transaction carries is refused and left as it
  -- was; or becomes the handle of the same strength of the reference that the target is given on the
  -- node behind the handle; or, only if the target owns that node, the object of the same strength
  -- with that node's pointer and cookie.
  pub binder_translate_handle-Carries :
      (b : Binder) (k : TransferKernel) (fp : FlatObject) (target th : ℕ)
      → Always
          (OfObject (Carries rb k target fp (IsNodeBehind b fp (b.threads th).proc)))
          (binder_translate_handle rb b k fp target th)
  unfolding binder_translate_handle to_object
  binder_translate_handle-Carries b k fp target th =
      let p = (b.threads th).proc in
      let Node = IsNodeBehind b fp p in
      let P = Always (OfObject (Carries rb k target fp Node)) in
      Always-eq (binder_get_node_from_ref b p (fp.value % 2 ^ 32) (is_strong_type fp.hdr_type))
        (λ found m. Always-option found.1 (gives (hides (refused Errno.einval))) (λ held e.
          Always-option (found.0.nodes held.0) stops (λ nd g.
            let at : Node found.0 held.0 nd = record {
              rdata = held.1;
              looked_up = m ∙ ap (λ o. ok (found.0, o)) e;
              there = g;
            } in
            Always-bind (put_translated rb held.0)
              (if_both P (not k.may_transfer) (gives (hides (refused Errno.eperm))) (
                if_cases P (is_top nd.proc target)
                  (λ c.
                    Always-any
                      (binder_inc_node found.0 held.0 (is_strong_type fp.hdr_type) false none)
                      (λ r. gives (comes_home at (is_top-same nd.proc target c))))
                  (λ c.
                    Always-map (refer_target-Hides k target fp Node found.0 held.0 nd none at)
                      (λ r h. hides h))))
              (λ r h. put_translated-OfObject (Carries rb k target fp Node) held.0 r h))))
