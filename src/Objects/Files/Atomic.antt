-- ===== src/Objects/Files/Atomic.antt =====
-- An array of descriptors is translated whole or not at all.
use headless_testing.Base.{
  ℕ, ◌+◌, ◌≡◌, refl, ◌⊎◌, inl, inr, true, Option, none, some, List, [], ◌∷◌, ◌++◌, arith, count,
  count-append, erase, length, length-append, ◌<◌, ◌≤◌, if_both,
}
use headless_testing.Kernel.{Errno}
use headless_testing.Objects.Files.{
  FdKernel, FdResult, target_fd, fd_error, FdArrayResult, all_translated, array_error,
  binder_translate_fd, task_get_unused_fd_flags, close_all, translate_fds, install_new,
}

count-erase :
    (a x : ℕ) (xs : List ℕ) → 0 < count a xs → count x (erase a xs) + count x (a ∷ []) ≡ count x xs
count-erase a x [] h = absurd (omega arith)
count-erase a x (y ∷ ys) h = ground (arith, count-erase a x ys)

abbrev Covers : List ℕ → List ℕ → Type 0
Covers open_fds fds = (a : ℕ) → count a fds ≤ count a open_fds

self_counted : (a : ℕ) (xs : List ℕ) → 0 < count a (a ∷ xs)
self_counted a xs = ground arith

Covers-erase :
    (fd : ℕ) (fds open_fds : List ℕ) → Covers open_fds (fd ∷ fds) → Covers (erase fd open_fds) fds
Covers-erase fd fds open_fds h a =
    let lt : 0 < count fd open_fds = omega (arith, h fd, self_counted fd fds) in
    ground (arith, h a, count-erase fd a open_fds lt)

-- Closing descriptors that are open takes exactly them away.
close_all-count :
    (k : FdKernel) (x : ℕ) (fds open_fds : List ℕ)
    → k.has_files ≡ true
    → Covers open_fds fds
    → count x (close_all k fds open_fds) + count x fds ≡ count x open_fds
unfolding close_all
close_all-count k x [] open_fds f h = omega arith
close_all-count k x (fd ∷ fds) open_fds f h =
    let lt : 0 < count fd open_fds = omega (arith, h fd, self_counted fd fds) in
    rw f (
      ground (
        arith,
        close_all-count k x fds (erase fd open_fds) f (Covers-erase fd fds open_fds h),
        count-erase fd x open_fds lt,
      ))

module _ (k : FdKernel) where
  -- What a translation of `fds` leaves, from a table that held `before` and then `installed`.
  pub data Translates (before : List ℕ) : List ℕ → List ℕ × FdArrayResult → Type 0 where
    whole :
        {fds : List ℕ} (now new : List ℕ)
        → length new ≡ length fds
        → ((x : ℕ) → count x now ≡ count x before + count x new)
        → Translates before fds (now, all_translated new)
    nothing :
        {fds : List ℕ} (now : List ℕ) (e : Errno)
        → ((x : ℕ) → count x now ≡ count x before)
        → Translates before fds (now, array_error e)

  -- One descriptor: an error that changes nothing, or a new one in a table that exists.
  pub data Moves (open_fds : List ℕ) : List ℕ × FdResult → Type 0 where
    moved : (new : ℕ) → k.has_files ≡ true → Moves open_fds (new ∷ open_fds, target_fd new)
    stays : (e : Errno) → Moves open_fds (open_fds, fd_error e)

  install_new-Moves :
      (open_fds : List ℕ) (o : Option ℕ)
      → o ≡ task_get_unused_fd_flags k open_fds
      → Moves open_fds (install_new k open_fds o)
  unfolding task_get_unused_fd_flags
  install_new-Moves open_fds none e = stays Errno.enomem
  install_new-Moves open_fds (some new) e =
      let f : k.has_files ≡ true = ground arith in simp f (moved new f)

  binder_translate_fd-Moves :
      (open_fds : List ℕ) (fd : ℕ) → Moves open_fds (binder_translate_fd k open_fds fd)
  unfolding binder_translate_fd
  binder_translate_fd-Moves open_fds fd = if_both (Moves open_fds) _ (stays Errno.eperm) (
      if_both (Moves open_fds) _ (stays Errno.ebadf)
        (if_both (Moves open_fds) _ (stays Errno.eperm) (install_new-Moves open_fds _ refl)))

  -- The table holds what it held before, and what was installed, which needs a table.
  record IsPartWay (before open_fds installed : List ℕ) : Type 0 where
    counts : (x : ℕ) → count x open_fds ≡ count x before + count x installed
    table : (installed ≡ []) ⊎ (k.has_files ≡ true)

  undone :
      (before open_fds installed : List ℕ)
      → IsPartWay before open_fds installed
      → (x : ℕ) → count x (close_all k installed open_fds) ≡ count x before
  unfolding close_all
  undone before open_fds [] w x = omega (arith, w.counts x)
  undone before open_fds (fd ∷ fds) w x = elim w.table [
    | inl e ↦ absurd (cc)
    | inr f ↦ omega (
      arith,
      w.counts x,
      close_all-count k x (fd ∷ fds) open_fds f (λ a. omega (arith, w.counts a)),
    )
  ]

  stepped :
      (before all open_fds installed fds : List ℕ) (r : List ℕ × FdResult)
      → Moves open_fds r
      → IsPartWay before open_fds installed
      → ((new : ℕ)
          → k.has_files ≡ true
          → Translates before all (translate_fds k (new ∷ open_fds) (installed ++ new ∷ []) fds))
      → Translates before all (elim r.1 [
        | target_fd new ↦ translate_fds k r.0 (installed ++ new ∷ []) fds
        | fd_error e ↦ (close_all k installed r.0, array_error e)
      ])
  stepped before all open_fds installed fds r (moved new f) w rest = rest new f
  stepped before all open_fds installed fds r (stays e) w rest =
      nothing (close_all k installed open_fds) e (undone before open_fds installed w)

  more :
      (before open_fds installed : List ℕ) (new : ℕ)
      → k.has_files ≡ true
      → IsPartWay before open_fds installed
      → IsPartWay before (new ∷ open_fds) (installed ++ new ∷ [])
  more before open_fds installed new f w = record {
    counts = λ x. ground (arith, w.counts x, count-append x installed (new ∷ []));
    table = inr f;
  }

  translate_fds-from :
      (before fds open_fds installed all : List ℕ)
      → length all ≡ length installed + length fds
      → IsPartWay before open_fds installed
      → Translates before all (translate_fds k open_fds installed fds)
  unfolding translate_fds
  translate_fds-from before [] open_fds installed all l w =
      whole open_fds installed (omega arith) w.counts
  translate_fds-from before (fd ∷ fds) open_fds installed all l w =
      stepped before all open_fds installed fds _ (binder_translate_fd-Moves open_fds fd) w λ new f.
        translate_fds-from before fds (new ∷ open_fds) (installed ++ new ∷ []) all
          (omega (arith, length-append installed (new ∷ [])))
          (more before open_fds installed new f w)

  -- Translating an array either gives one new descriptor for each that was sent, and the target
  -- then has exactly these in addition, or an error, and the target has what it had before.
  pub translate_fds-Translates :
      (open_fds fds : List ℕ) → Translates open_fds fds (translate_fds k open_fds [] fds)
  translate_fds-Translates open_fds fds =
      translate_fds-from open_fds fds open_fds [] fds (omega arith)
        (record { counts = λ x. omega arith; table = inl refl })
