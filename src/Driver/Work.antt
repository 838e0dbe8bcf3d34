-- ===== src/Driver/Work.antt =====
-- Work lists, and the choice and waking of threads.
use headless_testing.Base.{
  ℕ, Bool, true, false, not, ◌&&◌, ◌||◌, Option, none, some, List, [], ◌∷◌, ◌++◌, if◌then◌else◌,
  is_some,
}
use headless_testing.RbTree.{in_order}
use headless_testing.Driver.State.{
  WorkList, Work, Wake, wake_up, wake_up_sync, Binder, BinderThread, proc_todo, thread_todo,
  async_todo, delivered_death, write, set_proc, set_thread, set_node, set_death, same_work,
  node_work, death_work,
}

abbrev pub binder_worklist_empty : List Work → Bool
binder_worklist_empty [] = true
binder_worklist_empty (w ∷ ws) = false

-- The content of a list, and the heap with another content.
abbrev pub work_on : Binder → WorkList → List Work
work_on b (proc_todo p) = (b.procs p).todo
work_on b (thread_todo t) = (b.threads t).todo
work_on b (async_todo n) = b.async n
work_on b (delivered_death p) = (b.procs p).delivered_death

abbrev pub set_work : Binder → WorkList → List Work → Binder
set_work b (proc_todo p) ws = set_proc b p (record (b.procs p) { todo = ws })
set_work b (thread_todo t) ws = set_thread b t (record (b.threads t) { todo = ws })
set_work b (async_todo n) ws = record b { async = write n ws b.async }
set_work b (delivered_death p) ws = set_proc b p (record (b.procs p) { delivered_death = ws })

-- `list_add_tail(&work->entry, target_list)`
unfoldable pub binder_enqueue_work : Binder → Work → WorkList → Binder
binder_enqueue_work b w l = set_work b l (work_on b l ++ w ∷ [])

unfoldable pub binder_enqueue_deferred_thread_work : Binder → ℕ → Work → Binder
unfolding binder_enqueue_work
binder_enqueue_deferred_thread_work b t w = binder_enqueue_work b w (thread_todo t)

unfoldable pub binder_enqueue_thread_work : Binder → ℕ → Work → Binder
unfolding binder_enqueue_work
binder_enqueue_thread_work b t w =
    let queued = binder_enqueue_work b w (thread_todo t) in
    set_thread queued t (record (queued.threads t) { process_todo = true })

abbrev pub remove_work : Work → List Work → List Work
remove_work w [] = []
remove_work w (v ∷ vs) = if same_work v w then vs else v ∷ remove_work w vs

-- `list_del_init(&work->entry)` for work on the given list, if it is on one.
unfoldable pub binder_dequeue_work : Binder → Work → Option WorkList → Binder
binder_dequeue_work b w none = b
binder_dequeue_work b w (some l) = set_work b l (remove_work w (work_on b l))

abbrev pub head_work : List Work → Option Work
head_work [] = none
head_work (w ∷ ws) = some w

abbrev pub tail_work : List Work → List Work
tail_work [] = []
tail_work (w ∷ ws) = ws

-- The list that a work's own `entry` says it is on, for those that the driver asks.
abbrev pub mark_entry : Binder → Work → Option WorkList → Binder
mark_entry b (node_work n) e = elim (b.nodes n) [
  | none ↦ b
  | some nd ↦ set_node b n (record nd { work_entry = e })
]
mark_entry b (death_work d) e = elim (b.deaths d) [
  | none ↦ b
  | some dn ↦ set_death b d (record dn { entry = e })
]
mark_entry b _ e = b

-- The first work is off the list, and its `entry` is empty.
abbrev pub take_head : Binder → WorkList → Option Work → Binder × Option Work
take_head b l none = (b, none)
take_head b l (some w) = (mark_entry (set_work b l (tail_work (work_on b l))) w none, some w)

unfoldable pub binder_dequeue_work_head : Binder → WorkList → Binder × Option Work
binder_dequeue_work_head b l = take_head b l (head_work (work_on b l))

unfoldable pub binder_has_work : Binder → ℕ → Bool → Bool
binder_has_work b t do_proc_work =
    let th = b.threads t in
    th.process_todo
    || th.looper_need_return
    || (do_proc_work && not (binder_worklist_empty (b.procs th.proc).todo))

unfoldable pub binder_available_for_proc_work : BinderThread → Bool
binder_available_for_proc_work th =
    not (is_some th.transaction_stack)
    && binder_worklist_empty th.todo
    && (th.looper.entered || th.looper.registered)

abbrev pub wake_thread : Bool → ℕ → Wake
wake_thread sync t = if sync then wake_up_sync t else wake_up t

-- The threads that poll and are free, in the order of the tree.
unfoldable pub poll_wakes : Binder → Bool → List ℕ → List Wake
unfolding binder_available_for_proc_work
poll_wakes b sync [] = []
poll_wakes b sync (t ∷ ts) =
    let rest = poll_wakes b sync ts in
    if (b.threads t).looper.poll && binder_available_for_proc_work (b.threads t)
    then wake_thread sync t ∷ rest
    else rest

unfoldable pub binder_wakeup_poll_threads : Binder → ℕ → Bool → Binder
unfolding poll_wakes
binder_wakeup_poll_threads b p sync = record b {
  wakes = b.wakes ++ poll_wakes b sync (in_order (b.procs p).threads);
}

abbrev pub first_waiting : List ℕ → Option ℕ
first_waiting [] = none
first_waiting (t ∷ ts) = some t

abbrev pub other_waiting : List ℕ → List ℕ
other_waiting [] = []
other_waiting (t ∷ ts) = ts

-- The first waiting thread, which leaves the list.
unfoldable pub binder_select_thread : Binder → ℕ → Binder × Option ℕ
binder_select_thread b p =
    let ts = (b.procs p).waiting_threads in
    (set_proc b p (record (b.procs p) { waiting_threads = other_waiting ts }), first_waiting ts)

unfoldable pub binder_wakeup_thread : Binder → ℕ → Option ℕ → Bool → Binder
unfolding binder_wakeup_poll_threads
binder_wakeup_thread b p none sync = binder_wakeup_poll_threads b p sync
binder_wakeup_thread b p (some t) sync = record b { wakes = b.wakes ++ wake_thread sync t ∷ [] }

unfoldable pub binder_wakeup_proc : Binder → ℕ → Binder
unfolding binder_select_thread binder_wakeup_thread
binder_wakeup_proc b p = let (b', t) = binder_select_thread b p in binder_wakeup_thread b' p t false
