-- ===== src/Driver/Death/Phases.antt =====
-- The steps of a death notification: no command meets one in a phase that it does not expect.
use headless_testing.Base.{
  ℕ, ◌≡◌, refl, ap, ◌∙◌, sym, subst, Bool, true, false, Option, none, some, List, if_both, is_some,
}
use headless_testing.Kernel.{
  ok, Always, stops, gives, Gives, gave, Always-some, Always-option, Gives-ok, Always-ok,
  Always-bug_on,
}
use headless_testing.Driver.State.{
  Binder, BinderRef, BinderRefDeath, no_death_work, dead_binder, dead_binder_and_clear, death_work,
  WorkList, proc_todo, thread_todo, async_todo, delivered_death, write, set_ref, set_death, Work,
}
use headless_testing.Driver.Work.{
  binder_enqueue_work, binder_wakeup_proc, binder_dequeue_work, work_on, set_work, head_work,
  tail_work, take_head, mark_entry, binder_dequeue_work_head,
}
use headless_testing.Driver.Heap.{write_self}
use headless_testing.Driver.Ref.{dequeue_death, free_death, binder_free_ref}
use headless_testing.Driver.Node.{binder_free_node}
use headless_testing.RbTree.{RbLib}
use headless_testing.Driver.Send.Frames.{has_work}
use headless_testing.Driver.Death.{
  death_to_proc, set_request, withdraw, acknowledge, read_death, DeathReturn,
}
use headless_testing.Driver.Release.{notify_death, release_one}
use headless_testing.Driver.Death.Sound.{
  is_delivered, IsOn, Sound, not_due, acknowledged, due, withdrawn, answered, freed, IsSound,
  binder_wakeup_proc-deaths, IsOn-proc, IsOn-delivered, Sound-write, death_to_proc-IsSound,
  answer_clear-IsSound, work_on-same,
}

pub withdraw-Sound :
    (b : Binder) (p th r : ℕ) (rf : BinderRef) (d : ℕ) (dn : BinderRefDeath)
    → Sound b d true (some dn)
    → Gives (IsSound d false) (withdraw b p th r rf d dn)
unfolding withdraw
withdraw-Sound b p th r rf d dn (not_due e k) =
    simp (e, withdraw)
      (gave (answer_clear-IsSound (set_ref b r (record rf { death = none })) p th d dn))
withdraw-Sound b p th r rf d dn (acknowledged e k) =
    simp (e, withdraw)
      (gave (answer_clear-IsSound (set_ref b r (record rf { death = none })) p th d dn))
withdraw-Sound b p th r rf d dn (due {l = l} e on k) =
    let marked = record dn { kind = dead_binder_and_clear; entry = some l } in
    let off = set_death (set_ref b r (record rf { death = none })) d marked in
    simp (e, k, withdraw)
      (gave (
        Sound-write off false d (some marked) b.deaths refl (
          withdrawn refl (ap (has_work (death_work d)) (work_on-same b off l refl refl refl) ∙ on)
            refl)))

notify_death-IsSound :
    (b : Binder) (p d : ℕ) (dn : BinderRefDeath)
    → b.deaths d ≡ some dn
    → Always (IsSound d true) (notify_death b p d)
unfolding notify_death binder_enqueue_work
notify_death-IsSound b p d dn e =
    let marked = record dn { kind = dead_binder; entry = some (proc_todo p) } in
    let told = set_death b d marked in
    let queued = binder_enqueue_work told (death_work d) (proc_todo p) in
    Always-some (b.deaths d) _ _ e (
      Always-bug_on (is_some dn.entry) (
        gives (
          Sound-write (binder_wakeup_proc queued p) true d (some marked) b.deaths
            (binder_wakeup_proc-deaths queued p) (due refl (IsOn-proc told p d) refl))))

set_request-IsSound :
    (b : Binder) (p r : ℕ) (rf : BinderRef) (d cookie : ℕ)
    → Always (IsSound d true) (set_request b p r rf d cookie)
unfolding set_request
set_request-IsSound b p r rf d cookie =
    let dn : BinderRefDeath = record { cookie = cookie; kind = no_death_work; entry = none } in
    let asked = set_death (set_ref b r (record rf { death = some d })) d dn in
    Always-option rf.node stops (λ n e. Always-option (b.nodes n) stops (λ nd f. gives (
      if_both (IsSound d true) (is_some nd.proc) {x = asked}
        {y = death_to_proc asked p d dn dead_binder}
        (Sound-write asked true d (some dn) b.deaths refl (not_due refl refl))
        (death_to_proc-IsSound asked p d dn dead_binder true (λ on. due refl on refl)))))

-- The notification at the head of a list, once it is dequeued.
take_death :
    (b : Binder) (d : ℕ) (l : WorkList) (dn : BinderRefDeath)
    → head_work (work_on b l) ≡ some (death_work d)
    → b.deaths d ≡ some dn
    → (binder_dequeue_work_head b l).0.deaths d ≡ some (record dn { entry = none })
unfolding binder_dequeue_work_head
take_death b d l dn h e =
    ap (λ o. (take_head b l o).0.deaths d) h
    ∙ marks (set_work b l (tail_work (work_on b l)))
        (ap (λ f. f d) (set_work-deaths l (tail_work (work_on b l))) ∙ e)
  where
    set_work-deaths : (k : WorkList) (ws : List Work) → (set_work b k ws).deaths ≡ b.deaths
    set_work-deaths (proc_todo p) ws = refl
    set_work-deaths (thread_todo t) ws = refl
    set_work-deaths (async_todo n) ws = refl
    set_work-deaths (delivered_death p) ws = refl

    marks :
        (x : Binder)
        → x.deaths d ≡ some dn
        → (mark_entry x (death_work d) none).deaths d ≡ some (record dn { entry = none })
    marks x f =
        simp (f, mark_entry) (write_self d (some (record dn { entry = none })) (λ i. some dn))

-- A notification that is off its list is put on the list of delivered ones.
deliver-IsSound :
    (b : Binder) (p d : ℕ) (dn : BinderRefDeath) (k : Bool)
    → (let l = delivered_death p in
        let y =
          binder_enqueue_work (set_death b d (record dn { entry = some l })) (death_work d) l in
        (IsOn y d l → Sound y d k (some (record dn { entry = some l }))) → IsSound d k y)
unfolding binder_enqueue_work
deliver-IsSound b p d dn k s =
    let l = delivered_death p in
    let told = set_death b d (record dn { entry = some l }) in
    Sound-write (binder_enqueue_work told (death_work d) l) k d
      (some (record dn { entry = some l })) b.deaths refl (s (IsOn-delivered told p d))

-- A thread reads a notification that was taken off its list.
read_death-IsSound :
    (k : Bool) (b x : Binder) (p d : ℕ) (dn : BinderRefDeath) (l : WorkList)
    → dn.entry ≡ some l
    → x.deaths d ≡ some (record dn { entry = none })
    → Sound b d k (some dn)
    → Always (λ r. IsSound d k r.0) (read_death x p d)
unfolding read_death binder_enqueue_work
read_death-IsSound k b x p d dn l e h (not_due f g) = absurd (cc)
read_death-IsSound k b x p d dn l e h (acknowledged f g) = absurd (cc)
read_death-IsSound k b x p d dn l e h (due f o g) = Always-some (x.deaths d) _ _ h (
    simp g (
      gives (
        deliver-IsSound x p d (record dn { kind = dead_binder; entry = none }) true
          (λ on. due refl on refl))))
read_death-IsSound k b x p d dn l e h (withdrawn f o g) = Always-some (x.deaths d) _ _ h (
    simp g (
      gives (
        deliver-IsSound x p d (record dn { kind = dead_binder_and_clear; entry = none }) false
          (λ on. withdrawn refl on refl))))
read_death-IsSound k b x p d dn l e h (answered f o n g) =
    Always-some (x.deaths d) _ _ h
      (simp g (gives (Sound-write (free_death x (some d)) false d none x.deaths refl freed)))

-- The phase of the notification `d`, if the list was released.
abbrev pub SoundIf : ℕ → Bool → Option Binder → Type 0
SoundIf d k none = Unit
SoundIf d k (some b) = IsSound d k b

-- A notification that was taken off its list is released with the other work of the list.
release_one-IsSound :
    (rb : RbLib) (chain : ℕ) (k : Bool) (b x : Binder) (d : ℕ) (dn : BinderRefDeath) (l : WorkList)
    → dn.entry ≡ some l
    → x.deaths d ≡ some (record dn { entry = none })
    → Sound b d k (some dn)
    → Always (SoundIf d k) (release_one rb chain x (death_work d))
unfolding release_one
release_one-IsSound rb chain k b x d dn l e h (not_due f g) = absurd (cc)
release_one-IsSound rb chain k b x d dn l e h (acknowledged f g) = absurd (cc)
release_one-IsSound rb chain k b x d dn l e h (due f o g) =
    Always-some (x.deaths d) _ _ h
      (simp g (gives (subst (Sound x d true) (sym h) (acknowledged refl g))))
release_one-IsSound rb chain k b x d dn l e h (withdrawn f o g) =
    Always-some (x.deaths d) _ _ h
      (simp g (gives (Sound-write (free_death x (some d)) false d none x.deaths refl freed)))
release_one-IsSound rb chain k b x d dn l e h (answered f o n g) =
    Always-some (x.deaths d) _ _ h
      (simp g (gives (Sound-write (free_death x (some d)) false d none x.deaths refl freed)))

dequeue_death-deaths :
    (b : Binder) (d : ℕ) (dn : BinderRefDeath)
    → b.deaths d ≡ some dn
    → (dequeue_death b d).deaths d ≡ some (record dn { entry = none })
unfolding dequeue_death
dequeue_death-deaths b d dn e =
    simp (e, dequeue_death)
      (write_self d (some (record dn { entry = none }))
        (binder_dequeue_work b (death_work d) dn.entry).deaths)

acknowledge-IsSound :
    (k : Bool) (b : Binder) (p th d : ℕ) (dn : BinderRefDeath)
    → b.deaths d ≡ some dn
    → dn.entry ≡ some (delivered_death p)
    → Sound b d k (some dn)
    → Always (IsSound d k) (acknowledge b p th d)
unfolding acknowledge
acknowledge-IsSound k b p th d dn e h (not_due f g) = absurd (cc)
acknowledge-IsSound k b p th d dn e h (acknowledged f g) = absurd (cc)
acknowledge-IsSound k b p th d dn e h (due f o g) =
    let off = dequeue_death-deaths b d dn e in
    Always-some ((dequeue_death b d).deaths d) _ _ off
      (simp g (gives (subst (Sound (dequeue_death b d) d true) (sym off) (acknowledged refl g))))
acknowledge-IsSound k b p th d dn e h (withdrawn f o g) =
    let off = dequeue_death-deaths b d dn e in
    Always-some ((dequeue_death b d).deaths d) _ _ off (
      simp g (gives (answer_clear-IsSound (dequeue_death b d) p th d (record dn { entry = none }))))
acknowledge-IsSound k b p th d dn e h (answered {l = l} f o n g) =
    let same : l ≡ delivered_death p = cc in
    let yes : is_delivered l ≡ true = ap is_delivered same in absurd (cc)

-- `binder_free_ref` frees the notification that its reference points to.
binder_free_ref-IsSound :
    (b : Binder) (r d : ℕ) (rf : BinderRef)
    → b.refs r ≡ some rf
    → rf.death ≡ some d
    → Always (IsSound d false) (binder_free_ref b r)
unfolding binder_free_ref
binder_free_ref-IsSound b r d rf e h =
    Always-some (b.refs r) _ _ e
      (gives (subst (Sound _ d false) (sym (frees rf.node rf.death h)) freed))
  where
    frees :
        (o : Option ℕ) (t : Option ℕ)
        → t ≡ some d
        → (elim o as (λ _. Binder) [
          | none ↦ record (free_death b t) { refs = write r none b.refs }
          | some n ↦ binder_free_node (record (free_death b t) { refs = write r none b.refs }) n
        ]).deaths
            d
          ≡ none
    frees none t g = rw g (write_self d none b.deaths)
    frees (some n) t g = rw g (write_self d none b.deaths)

module _ (rb : RbLib) where
  -- What happens to the notification `d`; the Boolean says whether a reference points to it.
  pub data DeathStep (d : ℕ) : Bool → Binder → Bool → Binder → Type 0 where
    requests :
        {b b' : Binder} (p r cookie : ℕ) (rf : BinderRef)
        → set_request b p r rf d cookie ≡ ok b'
        → DeathStep d false b true b'
    withdraws :
        {b b' : Binder} (p th r : ℕ) (rf : BinderRef) (dn : BinderRefDeath)
        → b.deaths d ≡ some dn
        → withdraw b p th r rf d dn ≡ ok b'
        → DeathStep d true b false b'
    dies :
        {b b' : Binder} (p : ℕ) (dn : BinderRefDeath)
        → b.deaths d ≡ some dn
        → notify_death b p d ≡ ok b'
        → DeathStep d true b true b'
    reads :
        {b b' : Binder} {k : Bool} (p : ℕ) (dn : BinderRefDeath) (l : WorkList) (ret : DeathReturn)
        → b.deaths d ≡ some dn
        → dn.entry ≡ some l
        → head_work (work_on b l) ≡ some (death_work d)
        → read_death (binder_dequeue_work_head b l).0 p d ≡ ok (b', ret)
        → DeathStep d k b k b'
    is_done :
        {b b' : Binder} {k : Bool} (p th : ℕ) (dn : BinderRefDeath)
        → b.deaths d ≡ some dn
        → dn.entry ≡ some (delivered_death p)
        → acknowledge b p th d ≡ ok b'
        → DeathStep d k b k b'
    released :
        {b b' : Binder} {k : Bool} (chain : ℕ) (dn : BinderRefDeath) (l : WorkList)
        → b.deaths d ≡ some dn
        → dn.entry ≡ some l
        → head_work (work_on b l) ≡ some (death_work d)
        → release_one rb chain (binder_dequeue_work_head b l).0 (death_work d) ≡ ok (some b')
        → DeathStep d k b k b'
    loses_ref :
        {b b' : Binder} (r : ℕ) (rf : BinderRef)
        → b.refs r ≡ some rf
        → rf.death ≡ some d
        → binder_free_ref b r ≡ ok b'
        → DeathStep d true b false b'

  -- Each of these steps leads from a sound phase of the notification to one: it is asked for, it is
  -- withdrawn, its node dies, a thread takes it from the head of the list that its entry names and
  -- reads it, a thread acknowledges it, it is taken from the head of that list when the list is
  -- released, or its reference is freed.
  pub DeathStep-Sound :
      (d : ℕ) (k k' : Bool) (b b' : Binder)
      → Sound b d k (b.deaths d)
      → DeathStep d k b k' b'
      → Sound b' d k' (b'.deaths d)
  DeathStep-Sound d k k' b b' s (requests p r cookie rf e) =
      Always-ok (subst (Always (IsSound d true)) e (set_request-IsSound b p r rf d cookie))
  DeathStep-Sound d k k' b b' s (withdraws p th r rf dn g e) = Gives-ok (
      subst (Gives (IsSound d false)) e
        (withdraw-Sound b p th r rf d dn (subst (Sound b d true) g s)))
  DeathStep-Sound d k k' b b' s (dies p dn g e) =
      Always-ok (subst (Always (IsSound d true)) e (notify_death-IsSound b p d dn g))
  DeathStep-Sound d k k' b b' s (reads p dn l ret g h t e) = Always-ok (
      subst (Always (λ x. IsSound d k x.0)) e (
        read_death-IsSound k b (binder_dequeue_work_head b l).0 p d dn l h (take_death b d l dn t g)
          (subst (Sound b d k) g s)))
  DeathStep-Sound d k k' b b' s (is_done p th dn g h e) = Always-ok (
      subst (Always (IsSound d k)) e
        (acknowledge-IsSound k b p th d dn g h (subst (Sound b d k) g s)))
  DeathStep-Sound d k k' b b' s (released chain dn l g h t e) = Always-ok (
      subst (Always (SoundIf d k)) e (
        release_one-IsSound rb chain k b (binder_dequeue_work_head b l).0 d dn l h
          (take_death b d l dn t g) (subst (Sound b d k) g s)))
  DeathStep-Sound d k k' b b' s (loses_ref r rf g h e) =
      Always-ok (subst (Always (IsSound d false)) e (binder_free_ref-IsSound b r d rf g h))
