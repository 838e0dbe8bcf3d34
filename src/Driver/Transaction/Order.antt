-- ===== src/Driver/Transaction/Order.antt =====
-- The one-way transactions of a node over time.
use headless_testing.Base.{
  ℕ, suc, ◌+◌, ◌≡◌, refl, ◌∙◌, ap, sym, subst, Bool, true, false, arith, if◌then◌else◌, length,
  length-append, Option, none, some, List, [], ◌∷◌, ◌++◌, append_assoc, append-nil,
}
use headless_testing.Kernel.{ok, Always, Always-ok}
use headless_testing.Driver.State.{Binder, BinderNode, BinderTransaction, transaction_work}
use headless_testing.Driver.Transaction.{send_to_node, next_one_way}
use headless_testing.Driver.Transaction.OneWay.{
  HandsOver, Sends, SentIf, send_to_node-Sends, Next, idle, busy, works, next_one_way-Next,
}

abbrev pub in_flight : BinderNode → ℕ
in_flight nd = if nd.has_async_transaction then 1 else 0

-- An operation that leaves the node's flag and its waiting transactions alone.
pub record SameLane (n : ℕ) (b b' : Binder) : Type 0 where
  pub old : BinderNode
  pub new : BinderNode
  pub was : b.nodes n ≡ some old
  pub now : b'.nodes n ≡ some new
  pub flag : new.has_async_transaction ≡ old.has_async_transaction
  pub queue : b'.async n ≡ b.async n

-- The transactions that a new one adds to those handed over.
abbrev pub handed_by : Bool → ℕ → List ℕ
handed_by true t = []
handed_by false t = t ∷ []

abbrev pub first_of : List ℕ → List ℕ
first_of [] = []
first_of (t ∷ ts) = t ∷ []

-- The driver after a history of node `n`: the one-way transactions of it that were sent with success,
-- and how many times one was finished.
pub data History (n : ℕ) : Binder → List ℕ → ℕ → Type 0 where
  starts :
      {b : Binder} {nd : BinderNode}
      → b.nodes n ≡ some nd
      → nd.has_async_transaction ≡ false
      → b.async n ≡ []
      → History n b [] 0
  sends :
      {b b' : Binder} {sent : List ℕ} {finished : ℕ} (t : ℕ) (tx : BinderTransaction) (p : ℕ)
      (nd : BinderNode)
      → History n b sent finished
      → tx.one_way ≡ true
      → nd.proc ≡ some p
      → b.nodes n ≡ some nd
      → send_to_node b t tx p none n nd ≡ ok (b', true)
      → History n b' (sent ++ t ∷ []) finished
  finishes :
      {b b' : Binder} {sent : List ℕ} {finished : ℕ} (p : ℕ) (ts : List ℕ)
      → History n b sent finished
      → b.async n ≡ works ts
      → next_one_way b p n ≡ ok b'
      → History n b' sent (suc finished)
  others :
      {b b' : Binder} {sent : List ℕ} {finished : ℕ}
      → History n b sent finished
      → SameLane n b b'
      → History n b' sent finished

-- The transactions that process `p` and its threads have got as work from one driver to the next.
pub data Handed (p : ℕ) (b b' : Binder) : List ℕ → Type 0 where
  nothing : (b'.procs p).todo ≡ (b.procs p).todo → b'.threads ≡ b.threads → Handed p b b' []
  at_once : {t : ℕ} → HandsOver p (transaction_work t) b b' → Handed p b b' (t ∷ [])
  in_turn :
      {t : ℕ}
      → (b'.procs p).todo ≡ (b.procs p).todo ++ transaction_work t ∷ []
      → b'.threads ≡ b.threads
      → Handed p b b' (t ∷ [])

-- What the sends and the ends of a history have put on the work lists, read off them step by step.
pub data Hands (n : ℕ)
    : (b : Binder) (sent : List ℕ) (finished : ℕ)
      → History n b sent finished
      → List ℕ
      → Type 0 where
  at_start :
      {b : Binder} {nd : BinderNode} {g : b.nodes n ≡ some nd}
      {h : nd.has_async_transaction ≡ false} {a : b.async n ≡ []}
      → Hands n b [] 0 (starts g h a) []
  by_send :
      {b b' : Binder} {sent handed new : List ℕ} {finished t : ℕ} {tx : BinderTransaction} {p : ℕ}
      {nd : BinderNode} {k : History n b sent finished} {o : tx.one_way ≡ true}
      {own : nd.proc ≡ some p} {g : b.nodes n ≡ some nd}
      {e : send_to_node b t tx p none n nd ≡ ok (b', true)}
      → Hands n b sent finished k handed
      → Handed p b b' new
      → Hands n b' (sent ++ t ∷ []) finished (sends t tx p nd k o own g e) (handed ++ new)
  by_finish :
      {b b' : Binder} {sent handed new : List ℕ} {finished p : ℕ} {ts : List ℕ}
      {k : History n b sent finished} {a : b.async n ≡ works ts} {e : next_one_way b p n ≡ ok b'}
      → Hands n b sent finished k handed
      → Handed p b b' new
      → Hands n b' sent (suc finished) (finishes p ts k a e) (handed ++ new)
  by_other :
      {b b' : Binder} {sent handed : List ℕ} {finished : ℕ} {k : History n b sent finished}
      {s : SameLane n b b'}
      → Hands n b sent finished k handed
      → Hands n b' sent finished (others k s) handed

Sends-Handed :
    (n p t : ℕ) (nd : BinderNode) (b b' : Binder) (flag : Bool)
    → nd.has_async_transaction ≡ flag
    → Sends n p (transaction_work t) nd b b'
    → Handed p b b' (handed_by flag t)
Sends-Handed n p t nd b b' true h s =
    let kept = s.keeps h in nothing (ap (λ x. (x p).todo) kept.0) kept.1
Sends-Handed n p t nd b b' false h s = at_once (s.hands_over h)

Next-Handed :
    (n p : ℕ) (nd : BinderNode) (b b' : Binder) (ts : List ℕ)
    → Next n p nd b b' ts
    → Handed p b b' (first_of ts)
Next-Handed n p nd b b' _ (idle e f procs threads) = nothing (ap (λ x. (x p).todo) procs) threads
Next-Handed n p nd b b' _ (busy e f todo threads) = in_turn todo threads

-- What was handed over, and then what waits, is what was sent, in this order; and all that was
-- handed over is finished but for one, if the node's flag is set.
pub record InOrder (n : ℕ) (b : Binder) (sent handed : List ℕ) (finished : ℕ) : Type 0 where
  pub waiting : List ℕ
  pub at_node : BinderNode
  pub holds : b.nodes n ≡ some at_node
  pub queue : b.async n ≡ works waiting
  pub order : handed ++ waiting ≡ sent
  pub one : length handed ≡ finished + in_flight at_node
  pub idles : at_node.has_async_transaction ≡ false → waiting ≡ []

same_node : {o : Option BinderNode} {a c : BinderNode} → o ≡ some a → o ≡ some c → a ≡ c
same_node e g = cc

works-append : (ts : List ℕ) (t : ℕ) → works (ts ++ t ∷ []) ≡ works ts ++ transaction_work t ∷ []
works-append [] t = refl
works-append (u ∷ us) t = ap (λ x. transaction_work u ∷ x) (works-append us t)

works_inj : (ts us : List ℕ) → works ts ≡ works us → ts ≡ us
works_inj [] [] e = refl
works_inj [] (u ∷ us) e = absurd (cc)
works_inj (t ∷ ts) [] e = absurd (cc)
works_inj (t ∷ ts) (u ∷ us) e =
    let heads : t ≡ u = cc in
    let tails : works ts ≡ works us = cc in rw (heads, works_inj ts us tails) refl

joins : (a c w u s : List ℕ) → (a ++ c) ++ w ≡ s → (a ++ c) ++ (w ++ u) ≡ s ++ u
joins a c w u s e = sym (append_assoc (a ++ c) w u) ∙ ap (λ x. x ++ u) e

Sends-InOrder :
    (n : ℕ) (b b' : Binder) (sent handed : List ℕ) (finished t : ℕ) (p : ℕ) (nd : BinderNode)
    (flag : Bool)
    → nd.has_async_transaction ≡ flag
    → InOrder n b sent handed finished
    → b.nodes n ≡ some nd
    → Sends n p (transaction_work t) nd b b'
    → InOrder n b' (sent ++ t ∷ []) (handed ++ handed_by flag t) finished
Sends-InOrder n b b' sent handed finished t p nd true h k g s =
    let same = same_node k.holds g in
    let load : in_flight k.at_node ≡ 1 = ap in_flight same ∙ rw h refl in
    record {
      waiting = k.waiting ++ t ∷ [];
      at_node = record nd { has_async_transaction = true };
      holds = s.flagged;
      queue =
          s.waits
          ∙ ap (λ c. if c then b.async n ++ transaction_work t ∷ [] else b.async n) h
          ∙ ap (λ x. x ++ transaction_work t ∷ []) k.queue
          ∙ sym (works-append k.waiting t);
      order =
          joins handed [] k.waiting (t ∷ []) sent
            (ap (λ x. x ++ k.waiting) (append-nil handed) ∙ k.order);
      one = let one = k.one in let l = length-append handed [] in omega (arith, one, load, l);
      idles = λ x. absurd (cc);
    }
Sends-InOrder n b b' sent handed finished t p nd false h k g s =
    let same = same_node k.holds g in
    let load : in_flight k.at_node ≡ 0 = ap in_flight same ∙ rw h refl in
    let none_waits : k.waiting ≡ [] = k.idles (ap (λ x. x.has_async_transaction) same ∙ h) in
    record {
      waiting = [];
      at_node = record nd { has_async_transaction = true };
      holds = s.flagged;
      queue =
          s.waits
          ∙ ap (λ c. if c then b.async n ++ transaction_work t ∷ [] else b.async n) h
          ∙ k.queue
          ∙ ap works none_waits;
      order =
          append-nil (handed ++ t ∷ [])
          ∙ ap (λ x. x ++ t ∷ [])
              (sym (append-nil handed) ∙ ap (λ x. handed ++ x) (sym none_waits) ∙ k.order);
      one = let one = k.one in let l = length-append handed (t ∷ []) in omega (arith, one, load, l);
      idles = λ x. absurd (cc);
    }

finishes-InOrder :
    (n : ℕ) (b b' : Binder) (sent handed : List ℕ) (finished : ℕ) (p : ℕ) (ts : List ℕ)
    (nd : BinderNode)
    → InOrder n b sent handed finished
    → b.nodes n ≡ some nd
    → b.async n ≡ works ts
    → nd.has_async_transaction ≡ true
    → Next n p nd b b' ts
    → InOrder n b' sent (handed ++ first_of ts) (suc finished)
finishes-InOrder n b b' sent handed finished p _ nd k g a r (idle e f procs threads) =
    let same = same_node k.holds g in
    let load : in_flight k.at_node ≡ 1 = ap in_flight same ∙ rw r refl in
    let none_waits : k.waiting ≡ [] = works_inj k.waiting [] (sym k.queue ∙ a) in
    record {
      waiting = [];
      at_node = record nd { has_async_transaction = false };
      holds = f;
      queue = e;
      order = append-nil (handed ++ []) ∙ ap (λ x. handed ++ x) (sym none_waits) ∙ k.order;
      one = let one = k.one in let l = length-append handed [] in omega (arith, one, load, l);
      idles = λ x. refl;
    }
finishes-InOrder n b b' sent handed finished p _ nd k g a r
      (busy {t = t} {ts = ts} e f todo threads) =
    let same = same_node k.holds g in
    let load : in_flight k.at_node ≡ 1 = ap in_flight same ∙ rw r refl in
    let load' : in_flight nd ≡ 1 = rw r refl in
    let waits : k.waiting ≡ t ∷ ts = works_inj k.waiting (t ∷ ts) (sym k.queue ∙ a) in
    record {
      waiting = ts;
      at_node = nd;
      holds = f;
      queue = e;
      order = append_assoc handed (t ∷ []) ts ∙ ap (λ x. handed ++ x) (sym waits) ∙ k.order;
      one =
          let one = k.one in
          let l = length-append handed (t ∷ []) in omega (arith, one, load, load', l);
      idles = λ x. absurd (cc);
    }

others-InOrder :
    (n : ℕ) (b b' : Binder) (sent handed : List ℕ) (finished : ℕ)
    → InOrder n b sent handed finished
    → SameLane n b b'
    → InOrder n b' sent handed finished
others-InOrder n b b' sent handed finished k s =
    let flags = s.flag ∙ ap (λ x. x.has_async_transaction) (same_node s.was k.holds) in
    record {
      waiting = k.waiting;
      at_node = s.new;
      holds = s.now;
      queue = s.queue ∙ k.queue;
      order = k.order;
      one =
          let one = k.one in
          let load : in_flight s.new ≡ in_flight k.at_node = ap (λ c. if c then 1 else 0) flags in
          omega (arith, one, load);
      idles = λ x. k.idles (sym flags ∙ x);
    }

-- The work lists over a history have got transactions in the order in which they were sent.
abbrev pub Served :
    (n : ℕ) (b : Binder) (sent : List ℕ) (finished : ℕ) → History n b sent finished → Type 0
Served n b sent finished k =
    (handed : List ℕ) × Hands n b sent finished k handed × InOrder n b sent handed finished

-- After any successful sends to a node, finished transactions of it, and operations that leave its
-- flag and its queue alone, the one-way transactions that these sends and ends have put on the work
-- lists of the node's process or its waiting threads are handed over in the order in which they were
-- sent, each when those before it were finished: they and then those that wait are what was sent, and
-- there is one more of them than were finished if the node's flag is set, and no more if it is not.
pub History-InOrder :
    (n : ℕ) (b : Binder) (sent : List ℕ) (finished : ℕ) (k : History n b sent finished)
    → Served n b sent finished k
History-InOrder n b _ _ (starts {nd = nd} g h a) = (
  [],
  at_start,
  record {
    waiting = [];
    at_node = nd;
    holds = g;
    queue = a;
    order = refl;
    one = rw h refl;
    idles = λ x. refl;
  },
)
History-InOrder n b' _ finished (sends {b = b} {sent = sent} t tx p nd k o own g e) =
    let (handed, hands, before) = History-InOrder n b sent finished k in
    let s = Always-ok (
      subst (Always (SentIf n p (transaction_work t) nd b)) e
        (send_to_node-Sends b t tx p n nd nd.has_async_transaction o refl)) in
    let flag = nd.has_async_transaction in
    (
      handed ++ handed_by flag t,
      by_send hands (Sends-Handed n p t nd b b' flag refl s),
      Sends-InOrder n b b' sent handed finished t p nd flag refl before g s,
    )
History-InOrder n b' sent _ (finishes {b = b} {finished = finished} p ts k a e) =
    let (handed, hands, before) = History-InOrder n b sent finished k in
    let nd = before.at_node in
    let after = Always-ok (
      subst
        (Always (λ x. (nd.has_async_transaction ≡ true) × (nd.proc ≡ some p) × Next n p nd b x ts))
        e (next_one_way-Next b p n nd ts before.holds a)) in
    (
      handed ++ first_of ts,
      by_finish hands (Next-Handed n p nd b b' ts after.2),
      finishes-InOrder n b b' sent handed finished p ts nd before before.holds a after.0 after.2,
    )
History-InOrder n b' sent finished (others {b = b} k s) =
    let (handed, hands, before) = History-InOrder n b sent finished k in
    (handed, by_other hands, others-InOrder n b b' sent handed finished before s)
