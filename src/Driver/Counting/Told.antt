-- ===== src/Driver/Counting/Told.antt =====
-- What the owner of a node is told keeps its view of the node's flags exact.
use headless_testing.Base.{
  ℕ, ◌<◌, ◌==◌, length, arith, ◌↔◌, ◌≡◌, refl, Bool, true, false, not, ◌&&◌, Option, none, some,
  List, [], ◌∷◌, if◌then◌else◌, if_cases, or_right, ap, ◌∙◌, sym, Bool-cases, inl, inr,
}
use headless_testing.Kernel.{Always, gives, Always-bug_on, Always-some, Errno}
use headless_testing.RbTree.{RbLib}
use headless_testing.Driver.State.{Binder, BinderNode, set_node, set_proc}
use headless_testing.Driver.Heap.{write_self}
use headless_testing.Driver.Node.{no_refs, binder_free_node}
use headless_testing.Driver.Transaction.{is_top}
use headless_testing.Driver.Counting.{
  NodeReturn, br_increfs, br_acquire, br_release, br_decrefs, is_strong, is_weak, note_weak,
  note_strong, node_returns, put_returns, read_node,
}

-- What the owner of a node believes: is it referenced, and strongly?
pub record View : Type 0 where
  pub weak : Bool
  pub strong : Bool

abbrev pub told_of : NodeReturn → View → View
told_of br_increfs v = record v { weak = true }
told_of br_acquire v = record v { strong = true }
told_of br_release v = record v { strong = false }
told_of br_decrefs v = record v { weak = false }

abbrev pub told_all : List NodeReturn → View → View
told_all [] v = v
told_all (r ∷ rs) v = told_all rs (told_of r v)

abbrev pub view_of : BinderNode → View
view_of nd = record { weak = nd.has_weak_ref; strong = nd.has_strong_ref }

abbrev pub noted : BinderNode → BinderNode
noted nd = note_strong (is_strong nd) (note_weak (is_weak nd) nd)

note_weak-weak : (w : Bool) (nd : BinderNode) → (note_weak w nd).has_weak_ref ≡ w
note_weak-weak true nd = elim (Bool-cases nd.has_weak_ref) [
  | inl e ↦ simp e refl
  | inr e ↦ simp e refl
]
note_weak-weak false nd = refl

note_weak-strong :
    (w : Bool) (nd : BinderNode) → (note_weak w nd).has_strong_ref ≡ nd.has_strong_ref
note_weak-strong true nd = elim (Bool-cases nd.has_weak_ref) [
  | inl e ↦ simp e refl
  | inr e ↦ simp e refl
]
note_weak-strong false nd = refl

note_strong-weak : (s : Bool) (nd : BinderNode) → (note_strong s nd).has_weak_ref ≡ nd.has_weak_ref
note_strong-weak true nd = elim (Bool-cases nd.has_strong_ref) [
  | inl e ↦ simp e refl
  | inr e ↦ simp e refl
]
note_strong-weak false nd = refl

note_strong-strong : (s : Bool) (nd : BinderNode) → (note_strong s nd).has_strong_ref ≡ s
note_strong-strong true nd = elim (Bool-cases nd.has_strong_ref) [
  | inl e ↦ simp e refl
  | inr e ↦ simp e refl
]
note_strong-strong false nd = refl

told_all-node_returns :
    (s w hs hw : Bool)
    → told_all (node_returns s w hs hw) (record { weak = hw; strong = hs })
      ≡ record { weak = w; strong = s }
unfolding node_returns
told_all-node_returns true true true true = refl
told_all-node_returns true true true false = refl
told_all-node_returns true true false true = refl
told_all-node_returns true true false false = refl
told_all-node_returns true false true true = refl
told_all-node_returns true false true false = refl
told_all-node_returns true false false true = refl
told_all-node_returns true false false false = refl
told_all-node_returns false true true true = refl
told_all-node_returns false true true false = refl
told_all-node_returns false true false true = refl
told_all-node_returns false true false false = refl
told_all-node_returns false false true true = refl
told_all-node_returns false false true false = refl
told_all-node_returns false false false true = refl
told_all-node_returns false false false false = refl

put_returns-whole :
    (put_user : NodeReturn → Bool) (rs : List NodeReturn)
    → (put_returns put_user rs).1 ≡ none
    → (put_returns put_user rs).0 ≡ rs
unfolding put_returns
put_returns-whole put_user [] e = refl
put_returns-whole put_user (r ∷ rs) e = elim (Bool-cases (put_user r)) [
  | inl q ↦
      let ih = put_returns-whole put_user rs (
        let e' : (put_returns put_user (r ∷ rs)).1 ≡ (put_returns put_user rs).1 =
          simp (q, put_returns) refl in
        sym e' ∙ e) in
      simp (q, put_returns) (ap (λ x. r ∷ x) ih)
  | inr q ↦
      let bad : (put_returns put_user (r ∷ rs)).1 ≡ some Errno.efault =
        simp (q, put_returns) refl in
      absurd (cc)
]

-- Who refers to a node: strongly, the references of other processes or a count of its owner or of a
-- transaction; weakly, any of these, a reference of another process, a weak count, or the driver
-- itself for a while.
pub data IsHeld (nd : BinderNode) : Type 0 where
  by_refs : 0 < nd.internal_strong_refs → IsHeld nd
  by_count : 0 < nd.local_strong_refs → IsHeld nd

pub data IsReferenced (nd : BinderNode) : Type 0 where
  by_list : 0 < length nd.refs → IsReferenced nd
  by_weak : 0 < nd.local_weak_refs → IsReferenced nd
  by_driver : 0 < nd.tmp_refs → IsReferenced nd
  strongly : IsHeld nd → IsReferenced nd

IsHeld-is_strong : (nd : BinderNode) → (is_strong nd ≡ true) ↔ IsHeld nd
IsHeld-is_strong nd = (λ e. held e, λ h. counts h)
  where
    held : is_strong nd ≡ true → IsHeld nd
    held e = elim (Bool-cases (nd.internal_strong_refs == 0)) [
      | inr n ↦ by_refs (ground (arith, n))
      | inl z ↦ by_count (ground (arith, z, e))
    ]

    counts : IsHeld nd → is_strong nd ≡ true
    counts (by_refs h) = ground (arith, h)
    counts (by_count h) = ground (arith, h)

no_refs-length : (rs : List ℕ) → no_refs rs ≡ false → 0 < length rs
no_refs-length [] e = absurd (cc)
no_refs-length (r ∷ rs) e = omega arith

length-no_refs : (rs : List ℕ) → 0 < length rs → no_refs rs ≡ false
length-no_refs [] h = absurd (omega (arith, h))
length-no_refs (r ∷ rs) h = refl

IsReferenced-is_weak : (nd : BinderNode) → (is_weak nd ≡ true) ↔ IsReferenced nd
IsReferenced-is_weak nd = (λ e. referenced e, λ h. counts h)
  where
    referenced : is_weak nd ≡ true → IsReferenced nd
    referenced e = elim (Bool-cases (no_refs nd.refs)) [
      | inr n ↦ by_list (no_refs-length nd.refs n)
      | inl z ↦ elim (Bool-cases (nd.local_weak_refs == 0)) [
        | inr n ↦ by_weak (ground (arith, n))
        | inl y ↦ elim (Bool-cases (nd.tmp_refs == 0)) [
          | inr n ↦ by_driver (ground (arith, n))
          | inl x ↦
              let s : is_weak nd ≡ is_strong nd = rw (z, y, x) refl in
              strongly ((IsHeld-is_strong nd).0 (sym s ∙ e))
        ]
      ]
    ]

    counts : IsReferenced nd → is_weak nd ≡ true
    counts (by_list h) = let n = length-no_refs nd.refs h in rw n refl
    counts (by_weak h) = ground (arith, h)
    counts (by_driver h) = ground (arith, h)
    counts (strongly h) = let s = (IsHeld-is_strong nd).1 h in ground (arith, s)

-- What the owner has been told is what the flags of the node that is left say.
record Follows (nd : BinderNode) (n : ℕ) (b' : Binder) (told : List NodeReturn) : Type 0 where
  pub view : told_all told (view_of nd) ≡ record { weak = is_weak nd; strong = is_strong nd }
  pub left :
      (nd' : BinderNode)
      → b'.nodes n ≡ some nd'
      → (nd'.has_weak_ref ≡ is_weak nd) × (nd'.has_strong_ref ≡ is_strong nd)
  pub stays : is_weak nd ≡ true → b'.nodes n ≡ some (noted nd)
  pub freed : is_weak nd ≡ false → b'.nodes n ≡ none

-- The owner has been told exactly whether the node is referenced, weakly and strongly; the node that
-- is left has the same flags, and it is left exactly if it is referenced.
pub record Tracks (nd : BinderNode) (n : ℕ) (b' : Binder) (told : List NodeReturn) : Type 0 where
  pub weak : ((told_all told (view_of nd)).weak ≡ true) ↔ IsReferenced nd
  pub strong : ((told_all told (view_of nd)).strong ≡ true) ↔ IsHeld nd
  pub left :
      (nd' : BinderNode)
      → b'.nodes n ≡ some nd'
      → ((nd'.has_weak_ref ≡ true) ↔ IsReferenced nd) × ((nd'.has_strong_ref ≡ true) ↔ IsHeld nd)
  pub stays : IsReferenced nd → (nd' : BinderNode) × (b'.nodes n ≡ some nd')
  pub freed : ¬ (IsReferenced nd) → b'.nodes n ≡ none

iff_with : {A : Type 0} (x y : Bool) → x ≡ y → (y ≡ true) ↔ A → (x ≡ true) ↔ A
iff_with x y e h = (λ t. h.0 (sym e ∙ t), λ a. e ∙ h.1 a)

Follows-Tracks :
    (nd : BinderNode) (n : ℕ) (b' : Binder) (told : List NodeReturn)
    → Follows nd n b' told
    → Tracks nd n b' told
Follows-Tracks nd n b' told f =
    let w = IsReferenced-is_weak nd in
    let s = IsHeld-is_strong nd in
    record {
      weak = iff_with _ (is_weak nd) (ap (λ v. v.weak) f.view) w;
      strong = iff_with _ (is_strong nd) (ap (λ v. v.strong) f.view) s;
      left = λ nd' e.
          let flags = f.left nd' e in
          (
            iff_with nd'.has_weak_ref (is_weak nd) flags.0 w,
            iff_with nd'.has_strong_ref (is_strong nd) flags.1 s,
          );
      stays = λ r. (noted nd, f.stays (w.1 r));
      freed =
          λ u. elim (Bool-cases (is_weak nd)) [ inl e ↦ absurd (u (w.0 e)) | inr e ↦ f.freed e ];
    }

abbrev pub TracksIf : BinderNode → ℕ → Binder × List NodeReturn × Option Errno → Type 0
TracksIf nd n (b', told, e) = e ≡ none → Tracks nd n b' told

not_both : {A : Type 0} (w s : Bool) → w ≡ false → s ≡ false → (not w && not s) ≡ false → A
not_both true s e f g = absurd (cc)
not_both false true e f g = absurd (cc)
not_both false false e f g = absurd (cc)

module _ (rb : RbLib) where
  -- The node that is left, or freed.
  read_node-left :
      (b : Binder) (p n : ℕ) (nd : BinderNode) (due told : List NodeReturn)
      → told ≡ due
      → told_all due (view_of nd) ≡ record { weak = is_weak nd; strong = is_strong nd }
      → let kept = set_node b n (noted nd) in
        let pr = record (kept.procs p) { nodes = rb.rb_erase n (kept.procs p).nodes } in
        Follows nd n
          (if not (is_weak nd) && not (is_strong nd)
            then binder_free_node (set_proc kept p pr) n
            else kept)
          told
  read_node-left b p n nd due told e v =
      let kept = set_node b n (noted nd) in
      let pr = record (kept.procs p) { nodes = rb.rb_erase n (kept.procs p).nodes } in
      let gone = binder_free_node (set_proc kept p pr) n in
      let w = is_weak nd in
      let s = is_strong nd in
      let view = ap (λ x. told_all x (view_of nd)) e ∙ v in
      if_cases (λ (x : Binder). Follows nd n x told) (not w && not s) {x = gone} {y = kept}
        (λ c.
          let missing = write_self n none (set_proc kept p pr).nodes in
          record {
            view = view;
            left = λ nd' h. absurd (cc);
            stays = λ h. absurd (cc);
            freed = λ h. missing;
          })
        (λ c.
          let here = write_self n (some (noted nd)) b.nodes in
          record {
            view = view;
            left = λ nd' h.
                let same : noted nd ≡ nd' = cc in
                (
                  sym (ap (λ x. x.has_weak_ref) same)
                      ∙ note_strong-weak s (note_weak w nd)
                      ∙ note_weak-weak w nd,
                  sym (ap (λ x. x.has_strong_ref) same) ∙ note_strong-strong s (note_weak w nd),
                );
            stays = λ h. here;
            freed = λ h. not_both w s h (or_right _ s h) c;
          })

  -- Unless the driver stops at a BUG, if all the returns for a node's work can be written, they tell
  -- its owner exactly whether the node is referenced, weakly and strongly; the node that is left has
  -- the same flags, and it is freed exactly if nothing refers to it: no reference of a process, and no
  -- strong, weak or temporary count.
  pub read_node-Tracks :
      (put_user : NodeReturn → Bool) (b : Binder) (p n : ℕ) (nd : BinderNode)
      → b.nodes n ≡ some nd
      → Always (TracksIf nd n) (read_node rb put_user b p n)
  unfolding read_node
  read_node-Tracks put_user b p n nd g = Always-some (b.nodes n) _ _ g (
      Always-bug_on (not (is_top nd.proc p)) (
        gives (λ whole. Follows-Tracks nd n _ _ (
          read_node-left b p n nd
            (node_returns (is_strong nd) (is_weak nd) nd.has_strong_ref nd.has_weak_ref) _
            (put_returns-whole put_user _ whole)
            (told_all-node_returns (is_strong nd) (is_weak nd) nd.has_strong_ref
              nd.has_weak_ref)))))
