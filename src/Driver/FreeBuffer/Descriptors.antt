-- ===== src/Driver/FreeBuffer/Descriptors.antt =====
-- The descriptors that the release of a buffer closes in its process.
use headless_testing.Base.{
  ℕ, zero, suc, ◌-◌, ◌≡◌, if◌then◌else◌, ◌++◌, count-append, Bool-cases, inl, inr, Bool, true,
  false, arith, Option, none, some, List, [], ◌∷◌, ◌==◌, count, erase, add64, ◌+◌, ◌/◌, ◌%◌, ◌^◌,
}
use headless_testing.Kernel.{ok, Always, gives, Always-any, Always-bind, Always-map}
use headless_testing.RbTree.{RbLib}
use headless_testing.Alloc.State.{BinderBuffer}
use headless_testing.Objects.{
  ObjectType, binder_validate_object, binder_validate_ptr, type_binder, type_weak_binder,
  type_handle, type_weak_handle, type_fd, type_ptr, type_fda, type_other,
}
use headless_testing.Objects.Files.{FdKernel, task_close_fd}
use headless_testing.Driver.State.{Binder}
use headless_testing.Driver.Node.{binder_dec_node}
use headless_testing.Driver.FreeBuffer.{
  BufferMemory, released_array, close_array, release_array, release_object, release_handle,
  release_typed, release_at, release_from, binder_transaction_buffer_release,
}

-- The descriptors of an array of `n` words.
abbrev pub array_words : (ℕ → ℕ) → ℕ → ℕ → List ℕ
array_words word_at addr zero = []
array_words word_at addr (suc n) = word_at addr ∷ array_words word_at (add64 addr 4) n

abbrev words_at : BufferMemory → ℕ → Option ℕ → List ℕ
words_at m n none = []
words_at m n (some addr) = array_words m.word_at addr n

-- Those of the array at `offset`, if its parent is there.
abbrev words_in : BufferMemory → ℕ → Option ℕ → List ℕ
words_in m offset none = []
words_in m offset (some p) =
    let fda = m.objects.object_at offset in
    words_at m fda.num_fds (released_array m fda (m.objects.object_at p))

-- The descriptors that the release of the object with an index is to close: those of an array, and
-- one on its own if the transaction failed.
abbrev named_by : BufferMemory → Bool → ℕ → ObjectType → List ℕ
named_by m failed index type_fd =
    if failed then m.value_at (m.offset_of index) % 2 ^ 32 ∷ [] else []
named_by m failed index type_fda =
    let offset = m.offset_of index in
    words_in m offset
      (binder_validate_ptr m.objects (m.objects.object_at offset).parent m.offset_of index)
named_by m failed index _ = []

abbrev named_at : BufferMemory → Bool → ℕ → List ℕ
named_at m failed index =
    let offset = m.offset_of index in
    if binder_validate_object m.objects offset == 0
    then []
    else named_by m failed index (m.objects.object_at offset).hdr_type

-- The descriptors of `left` objects from an index on.
abbrev pub named_from : BufferMemory → Bool → ℕ → ℕ → List ℕ
named_from m failed index zero = []
named_from m failed index (suc left) =
    named_at m failed index ++ named_from m failed (suc index) left

-- Those of a buffer: of all its objects, or of those before the one that failed.
abbrev pub named_in : BufferMemory → BinderBuffer → Option ℕ → List ℕ
named_in m bf none = named_from m false 0 ((bf.offsets_size + 7) / 8)
named_in m bf (some i) = named_from m true 0 i

-- From the open descriptors `before`, each one is closed as often as `gone` names it.
pub record Closes (before gone after : List ℕ) : Type 0 where
  pub less : (fd : ℕ) → count fd after ≡ count fd before - count fd gone

Closes-self : (fds : List ℕ) → Closes fds [] fds
Closes-self fds = record { less = λ fd. omega arith }

Closes-append : (a g b h c : List ℕ) → Closes a g b → Closes b h c → Closes a (g ++ h) c
Closes-append a g b h c k l = record {
  less = λ fd.
      let x = k.less fd in
      let y = l.less fd in let z = count-append fd g h in omega (arith, x, y, z);
}

count-erase : (fd x : ℕ) (xs : List ℕ) → count fd (erase x xs) ≡ count fd xs - count fd (x ∷ [])
count-erase fd x [] = omega arith
count-erase fd x (y ∷ ys) = let rest = count-erase fd x ys in ground (arith, rest)

-- The process still has its files.
module _ (k : FdKernel) (files : k.has_files ≡ true) where
  task_close_fd-Closes : (x : ℕ) (fds : List ℕ) → Closes fds (x ∷ []) (task_close_fd k x fds)
  unfolding task_close_fd
  task_close_fd-Closes x fds = record { less = λ fd. rw files (count-erase fd x fds) }

  close_array-Closes :
      (n : ℕ) (w : ℕ → ℕ) (addr : ℕ) (fds : List ℕ)
      → Closes fds (array_words w addr n) (close_array k w addr n fds)
  unfolding close_array
  close_array-Closes zero w addr fds = Closes-self fds
  close_array-Closes (suc n) w addr fds =
      let fds' = task_close_fd k (w addr) fds in
      Closes-append fds (w addr ∷ []) fds' (array_words w (add64 addr 4) n)
        (close_array k w addr (suc n) fds) (task_close_fd-Closes (w addr) fds)
        (close_array-Closes n w (add64 addr 4) fds')

  words_at-Closes :
      (m : BufferMemory) (n : ℕ) (o : Option ℕ) (fds : List ℕ)
      → Closes fds
          (words_at m n o)
          (elim o [ none ↦ fds | some addr ↦ close_array k m.word_at addr n fds ])
  words_at-Closes m n none fds = Closes-self fds
  words_at-Closes m n (some addr) fds = close_array-Closes n m.word_at addr fds

  words_in-Closes :
      (m : BufferMemory) (offset : ℕ) (o : Option ℕ) (fds : List ℕ)
      → let fda = m.objects.object_at offset in
        Closes fds (words_in m offset o) (elim o [
          | none ↦ fds
          | some p ↦ elim (released_array m fda (m.objects.object_at p)) [
            | none ↦ fds
            | some addr ↦ close_array k m.word_at addr fda.num_fds fds
          ]
        ])
  words_in-Closes m offset none fds = Closes-self fds
  words_in-Closes m offset (some p) fds =
      let fda = m.objects.object_at offset in
      words_at-Closes m fda.num_fds (released_array m fda (m.objects.object_at p)) fds

  release_array-Closes :
      (m : BufferMemory) (failed : Bool) (index : ℕ) (fds : List ℕ)
      → Closes fds
          (named_by m failed index type_fda)
          (release_array k m index (m.offset_of index) fds)
  unfolding release_array
  release_array-Closes m failed index fds =
      let offset = m.offset_of index in
      words_in-Closes m offset
        (binder_validate_ptr m.objects (m.objects.object_at offset).parent m.offset_of index) fds

  module _ (rb : RbLib) where
    release_typed-Closes :
        (m : BufferMemory) (p : ℕ) (failed : Bool) (b : Binder) (fds : List ℕ) (index : ℕ)
        (t : ObjectType)
        → Always
            (λ r. Closes fds (named_by m failed index t) r.1)
            (release_typed rb k m p failed b fds index t)
    unfolding release_typed
    release_typed-Closes m p failed b fds index type_binder =
        Always-any (release_object rb b p (m.value_at (m.offset_of index)) true)
          (λ b'. gives (Closes-self fds))
    release_typed-Closes m p failed b fds index type_weak_binder =
        Always-any (release_object rb b p (m.value_at (m.offset_of index)) false)
          (λ b'. gives (Closes-self fds))
    release_typed-Closes m p failed b fds index type_handle =
        Always-any (release_handle rb b p (m.value_at (m.offset_of index) % 2 ^ 32) true)
          (λ b'. gives (Closes-self fds))
    release_typed-Closes m p failed b fds index type_weak_handle =
        Always-any (release_handle rb b p (m.value_at (m.offset_of index) % 2 ^ 32) false)
          (λ b'. gives (Closes-self fds))
    release_typed-Closes m p true b fds index type_fd =
        gives (task_close_fd-Closes (m.value_at (m.offset_of index) % 2 ^ 32) fds)
    release_typed-Closes m p false b fds index type_fd = gives (Closes-self fds)
    release_typed-Closes m p failed b fds index type_ptr = gives (Closes-self fds)
    release_typed-Closes m p failed b fds index type_fda =
        gives (release_array-Closes m failed index fds)
    release_typed-Closes m p failed b fds index (type_other t) = gives (Closes-self fds)

    release_at-Closes :
        (m : BufferMemory) (p : ℕ) (failed : Bool) (index : ℕ) (b : Binder) (fds : List ℕ)
        → Always
            (λ r. Closes fds (named_at m failed index) r.1)
            (release_at rb k m p failed (b, fds) index)
    unfolding release_at
    release_at-Closes m p failed index b fds =
        elim (Bool-cases (binder_validate_object m.objects (m.offset_of index) == 0)) [
          | inl e ↦ rw e (gives (Closes-self fds))
          | inr e ↦ rw e (
              release_typed-Closes m p failed b fds index
                (m.objects.object_at (m.offset_of index)).hdr_type)
        ]

    release_from-Closes :
        (m : BufferMemory) (p : ℕ) (failed : Bool) (left index : ℕ) (b : Binder) (fds : List ℕ)
        → Always
            (λ r. Closes fds (named_from m failed index left) r.1)
            (release_from rb k m p failed (b, fds) index left)
    unfolding release_from
    release_from-Closes m p failed zero index b fds = gives (Closes-self fds)
    release_from-Closes m p failed (suc left) index b fds =
        Always-bind _ (release_at-Closes m p failed index b fds) (λ s c.
          Always-map (release_from-Closes m p failed left (suc index) s.0 s.1) (λ r d.
            Closes-append fds (named_at m failed index) s.1 (named_from m failed (suc index) left)
              r.1 c d))

    -- In a process that has its files, the release of a buffer, unless it stops at a BUG, closes
    -- each descriptor as often as the objects name it, or all of them if it is open less often: the
    -- arrays of descriptors do, and after a failure the single descriptors too. After a failure the
    -- objects are those before the one that failed, else all, less those that are not valid.
    pub binder_transaction_buffer_release-Closes :
        (m : BufferMemory) (b : Binder) (fds : List ℕ) (p : ℕ) (bf : BinderBuffer)
        (failed_at : Option ℕ)
        → Always
            (λ r. Closes fds (named_in m bf failed_at) r.1)
            (binder_transaction_buffer_release rb k m (b, fds) p bf failed_at)
    unfolding binder_transaction_buffer_release
    binder_transaction_buffer_release-Closes m b fds p bf none =
        Always-any
          (elim bf.target_node [ none ↦ ok b | some n ↦ binder_dec_node rb b n true false ])
          (λ b'. release_from-Closes m p false ((bf.offsets_size + 7) / 8) 0 b' fds)
    binder_transaction_buffer_release-Closes m b fds p bf (some i) =
        Always-any
          (elim bf.target_node [ none ↦ ok b | some n ↦ binder_dec_node rb b n true false ])
          (λ b'. release_from-Closes m p true i 0 b' fds)
