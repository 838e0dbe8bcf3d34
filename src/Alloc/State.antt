-- ===== src/Alloc/State.antt =====
-- The structures of binder_alloc.h, and the list and tree helpers at the top of binder_alloc.c.
use headless_testing.Base.{
  ℕ, Bool, true, false, not, Option, none, some, List, [], ◌∷◌, ltb, ◌==◌, if◌then◌else◌, sub64,
  add64,
}
use headless_testing.Kernel.{bug, Run, ok, ◌>>=◌, ◌>>◌, bug_on, Ptr, ptr, null_ptr, err_ptr, Errno}
use headless_testing.RbTree.{Tree, Way, left, right, crash, toward, link, search_tree, RbLib}

-- `struct binder_buffer`. The address in `data` is what names a buffer.
pub record BinderBuffer : Type 0 where
  pub data_addr : ℕ
  pub free : Bool
  pub allow_user_free : Bool
  pub async_transaction : Bool
  pub debug_id : ℕ
  pub transaction : Option ℕ
  pub target_node : Option ℕ
  pub data_size : ℕ
  pub offsets_size : ℕ
  pub extra_buffers_size : ℕ

-- `struct binder_lru_page`: is there a physical page, and is it on `binder_alloc_lru`.
pub record LruPage : Type 0 where
  pub page_ptr : Bool
  pub on_lru : Bool

-- `struct binder_alloc`. Zero stands for a NULL `buffer`, and `pages` is indexed by page.
pub record BinderAlloc : Type 0 where
  pub vma : Bool
  pub vma_vm_mm : Bool
  pub buffer : ℕ
  pub user_buffer_offset : ℕ
  pub buffers : List BinderBuffer
  pub free_buffers : Tree
  pub allocated_buffers : Tree
  pub free_async_space : ℕ
  pub has_pages : Bool
  pub pages : ℕ → LruPage
  pub buffer_size : ℕ
  pub pages_high : ℕ

-- What `kzalloc` returns for a buffer that starts at `d`.
abbrev pub new_buffer : ℕ → BinderBuffer
new_buffer d = record {
  data_addr = d;
  free = true;
  allow_user_free = false;
  async_transaction = false;
  debug_id = 0;
  transaction = none;
  target_node = none;
  data_size = 0;
  offsets_size = 0;
  extra_buffers_size = 0;
}

-- The doubly linked list `buffers`, by address.
abbrev pub find : ℕ → List BinderBuffer → Option BinderBuffer
find d [] = none
find d (b ∷ bs) = if b.data_addr == d then some b else find d bs

abbrev pub update : ℕ → (BinderBuffer → BinderBuffer) → List BinderBuffer → List BinderBuffer
update d f [] = []
update d f (b ∷ bs) = if b.data_addr == d then f b ∷ bs else b ∷ update d f bs

-- `list_add(&new->entry, &buffer->entry)`
abbrev pub insert_after : ℕ → BinderBuffer → List BinderBuffer → List BinderBuffer
insert_after d new [] = []
insert_after d new (b ∷ bs) = if b.data_addr == d then b ∷ new ∷ bs else b ∷ insert_after d new bs

abbrev pub list_del : ℕ → List BinderBuffer → List BinderBuffer
list_del d [] = []
list_del d (b ∷ bs) = if b.data_addr == d then bs else b ∷ list_del d bs

abbrev pub first_of : List BinderBuffer → Option BinderBuffer
first_of [] = none
first_of (b ∷ bs) = some b

-- `binder_buffer_next`, or none at the last buffer.
unfoldable pub binder_buffer_next : ℕ → List BinderBuffer → Option BinderBuffer
binder_buffer_next d [] = none
binder_buffer_next d (b ∷ bs) = if b.data_addr == d then first_of bs else binder_buffer_next d bs

-- The buffer before `d`, given the one before the list.
unfoldable pub prev_from : Option BinderBuffer → ℕ → List BinderBuffer → Option BinderBuffer
prev_from p d [] = none
prev_from p d (b ∷ bs) = if b.data_addr == d then p else prev_from (some b) d bs

-- `binder_buffer_prev`, or none at the first buffer.
unfoldable pub binder_buffer_prev : ℕ → List BinderBuffer → Option BinderBuffer
unfolding prev_from
binder_buffer_prev d bs = prev_from none d bs

-- The distance from a buffer's start to the next one's, or to the end of the space.
abbrev pub span : ℕ → ℕ → Option BinderBuffer → ℕ
span end d none = sub64 end d
span end d (some c) = sub64 c.data_addr d

unfoldable pub size_in : ℕ → List BinderBuffer → ℕ → ℕ
size_in end [] d = 0
size_in end (b ∷ bs) d = if b.data_addr == d then span end d (first_of bs) else size_in end bs d

-- `binder_alloc_buffer_size`
unfoldable pub binder_alloc_buffer_size : BinderAlloc → ℕ → ℕ
unfolding size_in
binder_alloc_buffer_size alloc d = size_in (add64 alloc.buffer alloc.buffer_size) alloc.buffers d

abbrev pub is_free : Option BinderBuffer → Bool
is_free none = false
is_free (some b) = b.free

abbrev pub free_at : List BinderBuffer → ℕ → Bool
free_at bs d = is_free (find d bs)

-- The way of `binder_insert_free_buffer` at an element.
abbrev pub by_size : (ℕ → ℕ) → List BinderBuffer → ℕ → ℕ → Way
by_size size_of bs size x =
    if free_at bs x then (if ltb size (size_of x) then left else right) else crash

-- The way of the walks of `allocated_buffers` at an element.
abbrev pub by_address : List BinderBuffer → ℕ → ℕ → Way
by_address bs d x = if free_at bs x then crash else toward d x

module _ (rb : RbLib) where
  unfoldable pub binder_insert_free_buffer : BinderAlloc → ℕ → Run BinderAlloc
  binder_insert_free_buffer alloc d = do
    bug_on (not (free_at alloc.buffers d))
    let size_of = binder_alloc_buffer_size alloc
    t ← link (by_size size_of alloc.buffers (size_of d)) d alloc.free_buffers
    ok (record alloc { free_buffers = rb.rb_insert_color d t })

  unfoldable pub binder_insert_allocated_buffer_locked : BinderAlloc → ℕ → Run BinderAlloc
  binder_insert_allocated_buffer_locked alloc d = do
    bug_on (free_at alloc.buffers d)
    t ← link (by_address alloc.buffers d) d alloc.allocated_buffers
    ok (record alloc { allocated_buffers = rb.rb_insert_color d t })

-- What `binder_alloc_prepare_to_free_locked` does with the buffer that it finds.
abbrev pub claim : BinderAlloc → ℕ → BinderBuffer → BinderAlloc × Ptr
claim alloc d b =
    if b.allow_user_free
    then (
      record alloc { buffers = update d (λ c. record c { allow_user_free = false }) alloc.buffers },
      ptr d,
    )
    else (alloc, err_ptr Errno.eperm)

abbrev pub claim_found : BinderAlloc → Option ℕ → Run (BinderAlloc × Ptr)
claim_found alloc none = ok (alloc, null_ptr)
claim_found alloc (some d) = elim (find d alloc.buffers) [
  | none ↦ bug
  | some b ↦ ok (claim alloc d b)
]

-- `binder_alloc_prepare_to_free`: the mutex makes the body one step.
unfoldable pub binder_alloc_prepare_to_free : BinderAlloc → ℕ → Run (BinderAlloc × Ptr)
binder_alloc_prepare_to_free alloc user_ptr = do
  let kern_ptr = sub64 user_ptr alloc.user_buffer_offset
  found ← search_tree (by_address alloc.buffers kern_ptr) alloc.allocated_buffers
  claim_found alloc found
