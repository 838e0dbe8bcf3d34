-- ===== src/Driver/Send/Nesting.antt =====
-- The loop over the objects never runs out of fuel: the parents of buffer objects stand before them.
use headless_testing.Base.{
  ℕ, zero, suc, ◌≡◌, refl, ap, subst, Bool, true, false, not, ◌||◌, Option, none, some, List, ◌==◌,
  ltb, if◌then◌else◌, add64, sub64, arith, Bool-cases, inl, inr, if_both, Option-cases, [], ◌%◌,
  ◌^◌,
}
use headless_testing.Kernel.{Run, ok, bug, ◌>>=◌, Ends, ended, stopped, Ends-any, Ends-bind}
use headless_testing.RbTree.{RbLib}
use headless_testing.Objects.{
  ObjectBuffer, BinderObject, ObjectType, type_binder, type_weak_binder, type_handle,
  type_weak_handle, type_fd, type_ptr, type_fda, type_other, is_ptr, binder_validate_object,
  binder_validate_ptr, binder_fixup_parent, FixupResult, no_fixup, refused, written, no_fuel,
  write_fixup, fd_array_address,
}
use headless_testing.Objects.Files.{
  FdKernel, FdResult, target_fd, fd_error, FdArrayResult, all_translated, array_error,
  binder_translate_fd, translate_fds,
}
use headless_testing.Driver.Translate.{
  FlatType, flat_binder, flat_weak_binder, flat_handle, flat_weak_handle, Translation,
}
use headless_testing.Driver.Send.State.{SendKernel, Sending, Carried, object_type}
use headless_testing.Driver.Send.Objects.{
  Step, carry_binder, carry_handle, carry_typed, carry_at, carry_from, carry_fda, carry_array,
  carry_ptr, flat_carried, place_ptr, fixed_up, fda_carried, read_words, if_allowed, give,
  fd_carried, target_allows_fd,
}
use headless_testing.Driver.Send.Walks.{
  Walks, top, up, Walks-le, Nested, IsNested, GoesOn, Nested-other, put_object-SameShape,
  Nested-SameShape, Nested-ptr, validated, validate_fixup-Some,
}

flat_type : (t : FlatType) → is_ptr (object_type t) ≡ false
flat_type flat_binder = refl
flat_type flat_weak_binder = refl
flat_type flat_handle = refl
flat_type flat_weak_handle = refl

flat_carried-GoesOn :
    (c : Carried) (i : ℕ) (r : Translation)
    → is_ptr (c.content.memory.objects.object_at (c.content.memory.offset_of i)).hdr_type ≡ false
    → IsNested c i
    → GoesOn (suc i) (flat_carried c (c.content.memory.offset_of i) r)
flat_carried-GoesOn c i (b, fp, some e) h n = tt
flat_carried-GoesOn c i (b, fp, none) h n =
    let offset = c.content.memory.offset_of i in
    let o = c.content.memory.objects.object_at offset in
    Nested-other
      (put_object-SameShape c.content offset (record o { hdr_type = object_type fp.hdr_type })
        fp.value refl refl (λ q. absurd (cc (q, flat_type fp.hdr_type))))
      h n

-- The answer of `binder_fixup_parent` for the object with index `i`.
abbrev Fixed : ObjectBuffer → (ℕ → ℕ) → ℕ → FixupResult → Type 0
Fixed o start i no_fixup = Walks o start i (start i)
Fixed o start i (refused e) = Unit
Fixed o start i (written w) = Walks o start i (start i)
Fixed o start i no_fuel = ⊥

write_fixup-Fixed :
    (o : ObjectBuffer) (start : ℕ → ℕ) (i : ℕ) (parent bp : BinderObject) (user : ℕ)
    → Walks o start i (start i)
    → Fixed o start i (write_fixup parent bp user)
write_fixup-Fixed o start i parent bp user w =
    if_both (Fixed o start i) (ltb parent.length 8 || ltb (sub64 parent.length 8) bp.parent_offset)
      tt w

binder_fixup_parent-Fixed :
    (o : ObjectBuffer) (start : ℕ → ℕ) (i : ℕ) (last : Option ℕ) (min_offset user : ℕ)
    → Nested o start i last
    → Fixed o start i
        (binder_fixup_parent o (o.object_at (start i)) start i (suc i) last min_offset user)
unfolding binder_fixup_parent
binder_fixup_parent-Fixed o start i last min_offset user n =
    let bp = o.object_at (start i) in
    elim (Bool-cases bp.has_parent) [
      | inr root ↦ rw (root, binder_fixup_parent) (top root)
      | inl child ↦ elim (Option-cases (binder_validate_ptr o bp.parent start i)) [
        | inl e ↦ rw (child, e, binder_fixup_parent) tt
        | inr (p, e) ↦
            let (lt, at, is) = validated o start bp.parent i p e in
            let w : Walks o start i (start i) =
              Walks-le i (up {last = start i} (n.ptrs bp.parent lt is)) lt in
            let (r, q) =
              validate_fixup-Some o start p bp.parent_offset i last min_offset n.from_last in
            elim (Bool-cases r) [
              | inl y ↦
                  rw (child, e, q, y, binder_fixup_parent)
                    (write_fixup-Fixed o start i (o.object_at p) bp user w)
              | inr f ↦ rw (child, e, q, f, binder_fixup_parent) tt
            ]
      ]
    ]

abbrev Continues : ℕ → Option Step → Type 0
Continues i none = ⊥
Continues i (some s) = GoesOn (suc i) s

fixed_up-Continues :
    (c : Carried) (i : ℕ) (r : FixupResult)
    → IsNested c i
    → Fixed c.content.memory.objects c.content.memory.offset_of i r
    → Continues i (fixed_up c (c.content.memory.offset_of i) r)
fixed_up-Continues c i no_fixup n w = Nested-ptr w n
fixed_up-Continues c i (refused e) n w = tt
fixed_up-Continues c i (written x) n w = Nested-ptr w n
fixed_up-Continues c i no_fuel n w = w

carry_ptr-Continues :
    (k : SendKernel) (s : Sending) (c : Carried) (i : ℕ)
    → IsNested c i
    → is_ptr (c.content.memory.objects.object_at (c.content.memory.offset_of i)).hdr_type ≡ true
    → Continues i (carry_ptr k s c i (c.content.memory.offset_of i))
unfolding carry_ptr
carry_ptr-Continues k s c i n is =
    let m = c.content.memory in
    let bp = m.objects.object_at (m.offset_of i) in
    let placed = place_ptr c (m.offset_of i) bp in
    let same =
      put_object-SameShape c.content (m.offset_of i)
        (record bp { buffer = add64 c.sg_bufp m.user_buffer_offset }) (m.value_at (m.offset_of i))
        refl refl (λ q. is) in
    let n' : IsNested placed i = Nested-SameShape same n in
    if_both (Continues i)
      (ltb (sub64 s.sg_buf_end c.sg_bufp) bp.length || not (k.copy_sg bp.buffer)) tt
      (fixed_up-Continues placed i _ n' (
        binder_fixup_parent-Fixed placed.content.memory.objects m.offset_of i c.last_fixup_obj
          c.last_fixup_min_off m.user_buffer_offset n'))

carry_array-GoesOn :
    (files : FdKernel) (c : Carried) (i j : ℕ) (fda : BinderObject)
    → IsNested c i
    → Walks c.content.memory.objects c.content.memory.offset_of i (c.content.memory.offset_of j)
    → is_ptr (c.content.memory.objects.object_at (c.content.memory.offset_of i)).hdr_type ≡ false
    → GoesOn (suc i) (carry_array files c fda (c.content.memory.offset_of j))
unfolding carry_array
carry_array-GoesOn files c i j fda n w h =
    let m = c.content.memory in
    let p = m.offset_of j in
    elim (Option-cases (fd_array_address fda (m.objects.object_at p) m.user_buffer_offset)) [
      | inl e ↦ rw (e, carry_array) tt
      | inr (addr, e) ↦
          let r = translate_fds files c.fds [] (read_words m.word_at addr fda.num_fds) in
          rw (e, carry_array) (translated r.0 r.1 addr)
    ]
  where
    translated :
        (fds : List ℕ) (r : FdArrayResult) (addr : ℕ)
        → GoesOn (suc i) (fda_carried c fda (c.content.memory.offset_of j) addr (fds, r))
    translated fds (array_error e) addr = tt
    translated fds (all_translated ws) addr =
        let m = c.content.memory in
        let more =
          Nested-other (record { has_parent = λ d. refl; parent = λ d. refl; ptrs = λ d q. q }) h
            n in
        record {
          ptrs = more.ptrs;
          from_last = λ l q.
              let e : m.offset_of j ≡ l = cc in
              subst (Walks m.objects m.offset_of (suc i)) e (Walks-le (suc i) w (omega arith));
        }

if_allowed-Continues :
    (i : ℕ) (o : Option Bool) (halt go : Step)
    → (r : Bool) × (o ≡ some r)
    → GoesOn (suc i) halt
    → GoesOn (suc i) go
    → Continues i (if_allowed o halt go)
if_allowed-Continues i none halt go e h g = absurd (cc (e.1))
if_allowed-Continues i (some false) halt go e h g = h
if_allowed-Continues i (some true) halt go e h g = g

carry_fda-Continues :
    (files : FdKernel) (c : Carried) (i : ℕ)
    → IsNested c i
    → is_ptr (c.content.memory.objects.object_at (c.content.memory.offset_of i)).hdr_type ≡ false
    → Continues i (carry_fda files c i (c.content.memory.offset_of i))
unfolding carry_fda
carry_fda-Continues files c i n h =
    let m = c.content.memory in
    let fda = m.objects.object_at (m.offset_of i) in
    elim (Option-cases (binder_validate_ptr m.objects fda.parent m.offset_of i)) [
      | inl e ↦ rw (e, carry_fda) tt
      | inr (p, e) ↦
          let (lt, at, is) = validated m.objects m.offset_of fda.parent i p e in
          let w = Walks-le i (n.ptrs fda.parent lt is) (omega (arith, lt)) in
          rw (e, at, carry_fda)
            (if_allowed-Continues i _ (c, false) (carry_array files c fda (m.offset_of fda.parent))
              (validate_fixup-Some m.objects m.offset_of (m.offset_of fda.parent) fda.parent_offset
                i c.last_fixup_obj c.last_fixup_min_off n.from_last)
              tt (carry_array-GoesOn files c i fda.parent fda n w h))
    ]

Ends-Continues : (i : ℕ) (o : Option Step) → Continues i o → Ends (GoesOn (suc i)) (ok o)
Ends-Continues i none h = absurd h
Ends-Continues i (some s) h = ended h

after_object :
    (c : Carried) (b : Bool) (i : ℕ) (m : Run (Option (Carried × Option ℕ)))
    → (IsNested c (suc i) → Ends (λ r. Unit {0}) m)
    → GoesOn (suc i) (c, b)
    → Ends (λ r. Unit {0}) (if b then m else give (c, some i))
after_object c true i m f h = f h
after_object c false i m f h = ended tt

module _ (rb : RbLib) (k : SendKernel) (s : Sending) where
  carry_flat-Ends :
      (c : Carried) (i : ℕ) (m : Run Translation)
      → is_ptr (c.content.memory.objects.object_at (c.content.memory.offset_of i)).hdr_type ≡ false
      → IsNested c i
      → Ends
          (GoesOn (suc i))
          ((m >>= λ r. ok (flat_carried c (c.content.memory.offset_of i) r)) >>= give)
  carry_flat-Ends c i bug h n = stopped
  carry_flat-Ends c i (ok r) h n = ended (flat_carried-GoesOn c i r h n)

  carry_fd-Ends :
      (c : Carried) (i : ℕ) (allowed : Bool) (fds : List ℕ) (r : FdResult)
      → is_ptr (c.content.memory.objects.object_at (c.content.memory.offset_of i)).hdr_type ≡ false
      → IsNested c i
      → GoesOn (suc i) (fd_carried c (c.content.memory.offset_of i) (fds, r))
  carry_fd-Ends c i allowed fds (fd_error e) h n = tt
  carry_fd-Ends c i allowed fds (target_fd new) h n =
      let offset = c.content.memory.offset_of i in
      Nested-other
        (put_object-SameShape c.content offset (c.content.memory.objects.object_at offset) new refl
          refl (λ q. q))
        h n

  carry_typed-Ends :
      (c : Carried) (i : ℕ) (t : ObjectType)
      → (c.content.memory.objects.object_at (c.content.memory.offset_of i)).hdr_type ≡ t
      → IsNested c i
      → Ends (GoesOn (suc i)) (carry_typed rb k s c i (c.content.memory.offset_of i) t)
  unfolding carry_typed carry_binder carry_handle
  carry_typed-Ends c i type_binder e n = carry_flat-Ends c i _ (ap is_ptr e) n
  carry_typed-Ends c i type_weak_binder e n = carry_flat-Ends c i _ (ap is_ptr e) n
  carry_typed-Ends c i type_handle e n = carry_flat-Ends c i _ (ap is_ptr e) n
  carry_typed-Ends c i type_weak_handle e n = carry_flat-Ends c i _ (ap is_ptr e) n
  carry_typed-Ends c i type_fd e n = Ends-any (target_allows_fd c.driver s.held) (λ allowed.
      let r =
        binder_translate_fd (record k.files { target_allows_fd = allowed }) c.fds
          (c.content.memory.value_at (c.content.memory.offset_of i) % 2 ^ 32) in
      ended (carry_fd-Ends c i allowed r.0 r.1 (ap is_ptr e) n))
  carry_typed-Ends c i type_fda e n = Ends-any (target_allows_fd c.driver s.held) (λ allowed.
      Ends-Continues i _
        (carry_fda-Continues (record k.files { target_allows_fd = allowed }) c i n (ap is_ptr e)))
  carry_typed-Ends c i type_ptr e n =
      Ends-Continues i _ (carry_ptr-Continues k s c i n (ap is_ptr e))
  carry_typed-Ends c i (type_other t) e n = ended tt

  carry_at-Ends : (c : Carried) (i : ℕ) → IsNested c i → Ends (GoesOn (suc i)) (carry_at rb k s c i)
  unfolding carry_at
  carry_at-Ends c i n =
      let m = c.content.memory in
      let size = binder_validate_object m.objects (m.offset_of i) in
      if_both (Ends (GoesOn (suc i))) (size == 0 || ltb (m.offset_of i) c.off_min) (ended tt)
        (carry_typed-Ends (record c { off_min = add64 (m.offset_of i) size }) i _ refl n)

  -- The loop ends, whatever the objects are.
  pub carry_from-Ends :
      (c : Carried) (i left : ℕ) → IsNested c i → Ends (λ r. Unit {0}) (carry_from rb k s c i left)
  unfolding carry_from
  carry_from-Ends c i zero n = ended tt
  carry_from-Ends c i (suc left) n = Ends-bind (carry_at-Ends c i n) (λ r h.
      after_object r.0 r.1 i (carry_from rb k s r.0 (suc i) left) (carry_from-Ends r.0 (suc i) left)
        h)
