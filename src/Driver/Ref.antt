-- ===== src/Driver/Ref.antt =====
-- References that processes hold on nodes: handles, counts, creation and cleanup.
pub mod Handles
use headless_testing.Base.{
  ℕ, ◌+◌, Bool, true, false, not, ◌&&◌, ◌||◌, Option, none, some, List, [], ◌∷◌, ◌==◌, ltb,
  if◌then◌else◌, is_some, inc32, dec32, erase,
}
use headless_testing.Kernel.{Run, ok, bug, ◌>>=◌, ◌>>◌, bug_on, Errno}
use headless_testing.RbTree.{
  RbLib, Tree, search_tree, link, in_order, Way, left, right, here, crash, toward,
}
use headless_testing.Driver.State.{
  WorkList, proc_todo, death_work, Binder, BinderNode, BinderRef, BinderRefData, BinderProc, write,
  set_node, set_proc, set_ref, with_node, with_ref, set_death,
}
use headless_testing.Driver.Work.{binder_dequeue_work}
use headless_testing.Driver.Node.{
  binder_inc_node, binder_dec_node_nilocked, binder_dec_node, binder_inc_node_tmpref,
  binder_free_node,
}

-- The way to the reference with a given handle.
abbrev pub by_desc : Binder → ℕ → ℕ → Way
by_desc b desc r = elim (b.refs r) [ none ↦ crash | some rf ↦ toward desc rf.ref_data.desc ]

-- The way to the reference to a given node; a node's number stands for its address.
abbrev pub by_node : Binder → ℕ → ℕ → Way
by_node b n r = elim (b.refs r) [
  | none ↦ crash
  | some rf ↦ elim rf.node [ none ↦ crash | some m ↦ toward n m ]
]

-- A weak reference does not pass for a strong one.
abbrev pub if_strong : Binder → Bool → ℕ → Run (Option ℕ)
if_strong b need_strong_ref r =
    with_ref b r λ rf. ok (if need_strong_ref && rf.ref_data.strong == 0 then none else some r)

unfoldable pub binder_get_ref : Binder → ℕ → ℕ → Bool → Run (Option ℕ)
binder_get_ref b p desc need_strong_ref = do
  found ← search_tree (by_desc b desc) (b.procs p).refs_by_desc
  elim found [ none ↦ ok none | some r ↦ if_strong b need_strong_ref r ]

-- The loop that chooses the handle of a new reference, over the handles in use in their order.
unfoldable pub choose_desc : ℕ → List ℕ → ℕ
choose_desc desc [] = desc
choose_desc desc (d ∷ ds) = if ltb desc d then desc else choose_desc (inc32 d) ds

-- Where that loop starts: handle 0 is for the context manager.
abbrev pub first_desc : Option ℕ → ℕ → ℕ
first_desc none n = 1
first_desc (some m) n = if m == n then 0 else 1

-- A reference's handle; a freed reference has none.
abbrev pub desc_of : Binder → ℕ → ℕ
desc_of b r = elim (b.refs r) [ none ↦ 0 | some rf ↦ rf.ref_data.desc ]

abbrev pub descs_of : Binder → List ℕ → List ℕ
descs_of b [] = []
descs_of b (r ∷ rs) = desc_of b r ∷ descs_of b rs

-- The way of a walk that must find no equal key.
abbrev pub fresh_way : Way → Way
fresh_way left = left
fresh_way right = right
fresh_way here = crash
fresh_way crash = crash

-- `binder_dequeue_work` for the work of a death notification.
unfoldable pub dequeue_death : Binder → ℕ → Binder
unfolding binder_dequeue_work
dequeue_death b d = elim (b.deaths d) [
  | none ↦ b
  | some dn ↦
      set_death (binder_dequeue_work b (death_work d) dn.entry) d (record dn { entry = none })
]

-- `kfree(ref->death)`
abbrev pub free_death : Binder → Option ℕ → Binder
free_death b none = b
free_death b (some d) = record b { deaths = write d none b.deaths }

-- `binder_free_ref`
unfoldable pub binder_free_ref : Binder → ℕ → Run Binder
binder_free_ref b r = with_ref b r λ rf.
    let gone = record (free_death b rf.death) { refs = write r none b.refs } in
    ok (elim rf.node [ none ↦ gone | some n ↦ binder_free_node gone n ])

abbrev pub raise_strong : BinderRef → BinderRef
raise_strong rf = record rf { ref_data = record rf.ref_data { strong = inc32 rf.ref_data.strong } }

abbrev pub raise_weak : BinderRef → BinderRef
raise_weak rf = record rf { ref_data = record rf.ref_data { weak = inc32 rf.ref_data.weak } }

abbrev pub lower_strong : BinderRef → BinderRef
lower_strong rf = record rf { ref_data = record rf.ref_data { strong = dec32 rf.ref_data.strong } }

abbrev pub lower_weak : BinderRef → BinderRef
lower_weak rf = record rf { ref_data = record rf.ref_data { weak = dec32 rf.ref_data.weak } }

-- One more count on a reference whose first one goes to the node.
abbrev pub counted : ℕ → BinderRef → Binder × Option Errno → Run (Binder × Option Errno)
counted r rf (b, some e) = ok (b, some e)
counted r rf (b, none) = ok (set_ref b r rf, none)

-- `binder_inc_ref_olocked`; none is the return value 0.
unfoldable pub binder_inc_ref : Binder → ℕ → Bool → Option WorkList → Run (Binder × Option Errno)
binder_inc_ref b r strong target_list = with_ref b r λ rf. elim rf.node [
  | none ↦ bug
  | some n ↦
      if strong
      then ((if rf.ref_data.strong == 0
            then binder_inc_node b n true true target_list
            else ok (b, none))
          >>= counted r (raise_strong rf))
      else ((if rf.ref_data.weak == 0
            then binder_inc_node b n false true target_list
            else ok (b, none))
          >>= counted r (raise_weak rf))
]

-- `binder_get_node_from_ref`: the node with a temporary reference, and the handle's counts.
unfoldable pub binder_get_node_from_ref :
    Binder → ℕ → ℕ → Bool → Run (Binder × Option (ℕ × BinderRefData))
unfolding binder_get_ref
binder_get_node_from_ref b p desc need_strong_ref = do
  found ← binder_get_ref b p desc need_strong_ref
  elim found [
    | none ↦ ok (b, none)
    | some r ↦ with_ref b r λ rf. elim rf.node [
      | none ↦ bug
      | some n ↦ binder_inc_node_tmpref b n >>= λ b'. ok (b', some (n, rf.ref_data))
    ]
  ]

-- What `binder_inc_ref_for_node` answers: an error, or the reference's handle and counts.
pub data IncResult : Type 0 where
  inc_error : Errno → IncResult
  inc_ref : BinderRefData → IncResult

abbrev pub with_data : ℕ → Binder × Option Errno → Run (Binder × IncResult)
with_data r (b, some e) = ok (b, inc_error e)
with_data r (b, none) = with_ref b r λ rf. ok (b, inc_ref rf.ref_data)

-- A zeroed reference, filled in.
abbrev pub new_ref_at : ℕ → ℕ → ℕ → BinderRef
new_ref_at p n desc = record {
  ref_data = record { desc = desc; strong = 0; weak = 0 };
  proc = p;
  node = some n;
  death = none;
}

module _ (rb : RbLib) where
  -- Fill in the reference `r` to node `n`, and put it into both trees and on the node's list.
  unfoldable pub insert_ref : Binder → ℕ → ℕ → ℕ → Run Binder
  insert_ref b p n r = with_node b n λ nd. do
    let pr = b.procs p
    let desc =
        choose_desc (first_desc (b.context_mgr pr.context) n)
          (descs_of b (in_order pr.refs_by_desc))
    by_node_tree ← link (by_node b n) r pr.refs_by_node
    by_desc_tree ← link (λ q. fresh_way (by_desc b desc q)) r pr.refs_by_desc
    let pr' = record pr {
      refs_by_node = rb.rb_insert_color r by_node_tree;
      refs_by_desc = rb.rb_insert_color r by_desc_tree;
    }
    ok (
        set_node (set_proc (set_ref b r (new_ref_at p n desc)) p pr') n
          (record nd { refs = r ∷ nd.refs }))

  -- `binder_get_ref_for_node_olocked`; `new_ref` is the memory for a new reference, if any.
  unfoldable pub binder_get_ref_for_node : Binder → ℕ → ℕ → Option ℕ → Run (Binder × Option ℕ)
  unfolding insert_ref
  binder_get_ref_for_node b p n new_ref = do
    found ← search_tree (by_node b n) (b.procs p).refs_by_node
    elim found [
      | some r ↦ ok (b, some r)
      | none ↦ elim new_ref [
        | none ↦ ok (b, none)
        | some r ↦ insert_ref b p n r >>= λ b'. ok (b', some r)
      ]
    ]

  -- The nodes counts that a reference holds, given back. Must its node be freed?
  unfoldable pub release_node : Binder → ℕ → ℕ → Bool → Run (Binder × Bool)
  release_node b r n strong = do
    dropped ← if strong then binder_dec_node_nilocked rb b n true true else ok (b, false)
    let b' = dropped.0
    with_node b' n λ nd.
        binder_dec_node_nilocked rb (set_node b' n (record nd { refs = erase r nd.refs })) n false
          true

  -- `binder_cleanup_ref_olocked`
  unfoldable pub binder_cleanup_ref : Binder → ℕ → Run Binder
  unfolding release_node
  binder_cleanup_ref b r = with_ref b r λ rf. elim rf.node [
    | none ↦ bug
    | some n ↦ do
      let pr = b.procs rf.proc
      let unlinked = set_proc b rf.proc (record pr {
        refs_by_desc = rb.rb_erase r pr.refs_by_desc;
        refs_by_node = rb.rb_erase r pr.refs_by_node;
      })
      (b', delete_node) ← release_node unlinked r n (not (rf.ref_data.strong == 0))
      let cleared = if delete_node then rf else record rf { node = none }
      let b'' = set_ref b' r cleared
      ok (elim rf.death [ none ↦ b'' | some d ↦ dequeue_death b'' d ])
  ]

  -- The end of `binder_dec_ref_olocked`: without counts the reference is cleaned up.
  unfoldable pub clean_if_unused : Binder → ℕ → Run (Binder × Bool)
  unfolding binder_cleanup_ref
  clean_if_unused b r = with_ref b r λ rf.
      if rf.ref_data.strong == 0 && rf.ref_data.weak == 0
      then (binder_cleanup_ref b r >>= λ b'. ok (b', true))
      else ok (b, false)

  -- `binder_dec_ref_olocked`: is the reference cleaned up, so that the caller must free it?
  unfoldable pub binder_dec_ref : Binder → ℕ → Bool → Run (Binder × Bool)
  unfolding clean_if_unused
  binder_dec_ref b r strong = with_ref b r λ rf. elim rf.node [
    | none ↦ bug
    | some n ↦
        if strong
        then if rf.ref_data.strong == 0
          then ok (b, false)
          else (let rf' = lower_strong rf in
              let b' = set_ref b r rf' in
              (if rf'.ref_data.strong == 0 then binder_dec_node rb b' n true true else ok b')
              >>= λ b''. clean_if_unused b'' r)
        else if rf.ref_data.weak == 0
        then ok (b, false)
        else clean_if_unused (set_ref b r (lower_weak rf)) r
  ]

  -- `binder_update_ref_for_handle`, and `binder_dec_ref_for_handle` with `increment` false.
  unfoldable pub binder_update_ref_for_handle :
      Binder → ℕ → ℕ → Bool → Bool → Run (Binder × Option Errno)
  unfolding binder_get_ref binder_inc_ref binder_dec_ref
  binder_update_ref_for_handle b p desc increment strong = do
    found ← binder_get_ref b p desc strong
    elim found [
      | none ↦ ok (b, some Errno.einval)
      | some r ↦
          if increment
          then binder_inc_ref b r strong none
          else (binder_dec_ref b r strong >>= λ done.
              if done.1
              then (binder_free_ref done.0 r >>= λ b'. ok (b', none))
              else ok (done.0, none))
    ]

  -- `binder_inc_ref_for_node`, where `kzalloc` answers with the memory for a reference or none.
  unfoldable pub binder_inc_ref_for_node :
      Binder → ℕ → ℕ → Bool → Option WorkList → Option ℕ → Run (Binder × IncResult)
  unfolding binder_get_ref_for_node binder_inc_ref
  binder_inc_ref_for_node b p n strong target_list kzalloc = do
    (b', found) ← binder_get_ref_for_node b p n none
    elim found [
      | some r ↦ binder_inc_ref b' r strong target_list >>= with_data r
      | none ↦ elim kzalloc [
        | none ↦ ok (b', inc_error Errno.enomem)
        | some new_ref ↦ do
          (b'', made) ← binder_get_ref_for_node b' p n (some new_ref)
          elim made [
            | none ↦ bug
            | some r ↦ binder_inc_ref b'' r strong target_list >>= with_data r
          ]
      ]
    ]
