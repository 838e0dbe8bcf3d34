-- ===== src/Driver/Send/Walks.antt =====
-- How deep the parents of buffer objects nest.
use headless_testing.Base.{
  ℕ, zero, suc, ◌≤◌, ◌<◌, ◌≡◌, ◌⊎◌, refl, sym, ◌∙◌, subst, Bool, true, false, Option, none, some,
  ◌==◌, leb, add64, arith, Bool-cases, inl, inr,
}
use headless_testing.Objects.{
  ObjectBuffer, BinderObject, is_ptr, binder_validate_ptr, fixup_walk, binder_validate_fixup,
}
use headless_testing.Driver.Send.State.{Carried, Content, put_object}
use headless_testing.Driver.Send.Objects.{Step}

-- From the object at an offset there are at most `n` steps up to a buffer without a parent.
pub data Walks (o : ObjectBuffer) (start : ℕ → ℕ) : ℕ → ℕ → Type 0 where
  top : {n last : ℕ} → (o.object_at last).has_parent ≡ false → Walks o start n last
  up : {n last : ℕ} → Walks o start n (start (o.object_at last).parent) → Walks o start (suc n) last

pub Walks-le :
    {o : ObjectBuffer} {start : ℕ → ℕ} {n last : ℕ} (m : ℕ)
    → Walks o start n last
    → n ≤ m
    → Walks o start m last
Walks-le m (top e) h = top e
Walks-le zero (up w) h = absurd (omega (arith, h))
Walks-le (suc m) (up w) h = up (Walks-le m w (omega (arith, h)))

-- The walk gives an answer.
pub fixup_walk-Walks :
    {o : ObjectBuffer} {start : ℕ → ℕ} {n last : ℕ} (target fixup_offset fuel min_offset : ℕ)
    → Walks o start n last
    → n < fuel
    → (r : Bool) × (fixup_walk o start target fixup_offset fuel last min_offset ≡ some r)
unfolding fixup_walk
fixup_walk-Walks target fixup_offset zero min_offset w h = absurd (omega (arith, h))
fixup_walk-Walks {o} {start} {n} {last} target fixup_offset (suc fuel) min_offset (top e) h =
    elim (Bool-cases (last == target)) [
      | inl same ↦ (leb min_offset fixup_offset, rw (same, fixup_walk) refl)
      | inr other ↦ (false, rw (other, e, fixup_walk) refl)
    ]
fixup_walk-Walks {o} {start} {n} {last} target fixup_offset (suc fuel) min_offset (up w) h =
    let next = add64 (o.object_at last).parent_offset 8 in
    let (r, q) = fixup_walk-Walks target fixup_offset fuel next w (omega (arith, h)) in
    elim (Bool-cases (last == target)) [
      | inl same ↦ (leb min_offset fixup_offset, rw (same, fixup_walk) refl)
      | inr other ↦ elim (Bool-cases (o.object_at last).has_parent) [
        | inl p ↦ (r, rw (other, p, fixup_walk) q)
        | inr p ↦ (false, rw (other, p, fixup_walk) refl)
      ]
    ]

-- Two buffers whose objects have the same parents; no buffer object is new.
pub record SameShape (o o' : ObjectBuffer) : Type 0 where
  pub has_parent : (d : ℕ) → (o'.object_at d).has_parent ≡ (o.object_at d).has_parent
  pub parent : (d : ℕ) → (o'.object_at d).parent ≡ (o.object_at d).parent
  pub ptrs :
      (d : ℕ) → is_ptr (o'.object_at d).hdr_type ≡ true → is_ptr (o.object_at d).hdr_type ≡ true

pub Walks-SameShape :
    {o o' : ObjectBuffer} {start : ℕ → ℕ} {n last : ℕ}
    → SameShape o o'
    → Walks o start n last
    → Walks o' start n last
Walks-SameShape {last} s (top e) = top (s.has_parent last ∙ e)
Walks-SameShape {o' = o'} {start = start} {n = suc n} {last = last} s (up w) =
    up (subst (λ d. Walks o' start n (start d)) (sym (s.parent last)) (Walks-SameShape s w))

-- Before the object with index `i`.
pub record Nested (o : ObjectBuffer) (start : ℕ → ℕ) (i : ℕ) (last : Option ℕ) : Type 0 where
  pub ptrs :
      (j : ℕ) → j < i → is_ptr (o.object_at (start j)).hdr_type ≡ true → Walks o start j (start j)
  pub from_last : (l : ℕ) → last ≡ some l → Walks o start i l

abbrev pub IsNested : Carried → ℕ → Type 0
IsNested c i = Nested c.content.memory.objects c.content.memory.offset_of i c.last_fixup_obj

abbrev pub GoesOn : ℕ → Step → Type 0
GoesOn i (c, true) = IsNested c i
GoesOn i (c, false) = Unit

pub first-Nested : (o : ObjectBuffer) (start : ℕ → ℕ) → Nested o start 0 none
first-Nested o start = record {
  ptrs = λ j h. absurd (omega (arith, h));
  from_last = λ l e. absurd (cc);
}

pub below_suc : {j i : ℕ} → j < suc i → (j ≡ i) ⊎ (j < i)
below_suc {j} {i} h = elim (Bool-cases (j == i)) [
  | inl e ↦ inl (ground arith)
  | inr e ↦ inr (ground (arith, h))
]

-- An object that is no buffer leaves all as it is.
pub Nested-other :
    {o o' : ObjectBuffer} {start : ℕ → ℕ} {i : ℕ} {last : Option ℕ}
    → SameShape o o'
    → is_ptr (o.object_at (start i)).hdr_type ≡ false
    → Nested o start i last
    → Nested o' start (suc i) last
Nested-other {o} {o'} {start} {i} s e n = record {
  ptrs = λ j h p. elim (below_suc h) [
    | inl same ↦
        let q : is_ptr (o.object_at (start i)).hdr_type ≡ true =
          subst (λ x. is_ptr (o.object_at (start x)).hdr_type ≡ true) same (s.ptrs (start j) p) in
        absurd (cc (q, e))
    | inr lt ↦ Walks-SameShape s (n.ptrs j lt (s.ptrs (start j) p))
  ];
  from_last = λ l q. Walks-le (suc i) (Walks-SameShape s (n.from_last l q)) (omega arith);
}

-- An object that is written with the parent that it had.
pub put_object-SameShape :
    (c : Content) (offset : ℕ) (o : BinderObject) (value : ℕ)
    → o.has_parent ≡ (c.memory.objects.object_at offset).has_parent
    → o.parent ≡ (c.memory.objects.object_at offset).parent
    → (is_ptr o.hdr_type ≡ true → is_ptr (c.memory.objects.object_at offset).hdr_type ≡ true)
    → SameShape c.memory.objects (put_object c offset o value).memory.objects
put_object-SameShape c offset o value h p t =
    let f = c.memory.objects.object_at in
    record {
      has_parent = λ d. elim (Bool-cases (d == offset)) [
        | inl e ↦ let same : d ≡ offset = ground (arith, e) in rw (e, same) h
        | inr e ↦ rw e refl
      ];
      parent = λ d. elim (Bool-cases (d == offset)) [
        | inl e ↦ let same : d ≡ offset = ground (arith, e) in rw (e, same) p
        | inr e ↦ rw e refl
      ];
      ptrs = λ d. elim (Bool-cases (d == offset)) [
        | inl e ↦ let same : d ≡ offset = ground (arith, e) in rw (e, same) t
        | inr e ↦ rw e (λ q. q)
      ];
    }

pub Nested-SameShape :
    {o o' : ObjectBuffer} {start : ℕ → ℕ} {i : ℕ} {last : Option ℕ}
    → SameShape o o'
    → Nested o start i last
    → Nested o' start i last
Nested-SameShape s n = record {
  ptrs = λ j h p. Walks-SameShape s (n.ptrs j h (s.ptrs _ p));
  from_last = λ l q. Walks-SameShape s (n.from_last l q);
}

-- With a buffer object whose walk is short enough.
pub Nested-ptr :
    {o : ObjectBuffer} {start : ℕ → ℕ} {i : ℕ} {last : Option ℕ}
    → Walks o start i (start i)
    → Nested o start i last
    → Nested o start (suc i) (some (start i))
Nested-ptr {o} {start} {i} w n = record {
  ptrs = λ j h p. elim (below_suc h) [
    | inl same ↦ subst (λ x. Walks o start x (start x)) (sym same) w
    | inr lt ↦ n.ptrs j lt p
  ];
  from_last = λ l q.
      let e : start i ≡ l = cc in
      subst (Walks o start (suc i)) e (Walks-le (suc i) w (omega arith));
}

-- The parent of a buffer object is a buffer object before it.
pub validated :
    (o : ObjectBuffer) (start : ℕ → ℕ) (index i p : ℕ)
    → binder_validate_ptr o index start i ≡ some p
    → (index < i) × (p ≡ start index) × (is_ptr (o.object_at (start index)).hdr_type ≡ true)
unfolding binder_validate_ptr
validated o start index i p h = ground arith

-- A walk from the last fixup has fuel enough.
pub validate_fixup-Some :
    (o : ObjectBuffer) (start : ℕ → ℕ) (target fixup_offset i : ℕ) (last : Option ℕ)
    (min_offset : ℕ)
    → ((l : ℕ) → last ≡ some l → Walks o start i l)
    → (r : Bool) × (binder_validate_fixup o start target fixup_offset (suc i) last min_offset
        ≡ some r)
unfolding binder_validate_fixup
validate_fixup-Some o start target fixup_offset i none min_offset w = (false, refl)
validate_fixup-Some o start target fixup_offset i (some l) min_offset w =
    fixup_walk-Walks target fixup_offset (suc i) min_offset (w l refl) (omega arith)
