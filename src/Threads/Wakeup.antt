-- ===== src/Threads/Wakeup.antt =====
-- thread_wakeup of threads/thread.c: what it wakes, and the invariant.
use ece334operating_system.Prelude.{
  ℕ, ◌≡◌, ◌≢◌, true, false, some, List, [], ◌∷◌, ◌==◌, arith, inl, inr, ◌∙◌, ap, sym, Bool-cases,
  Option-cases, ne→==,
}
use ece334operating_system.Threads.{suspended, QueueRef, same_ref, State, set_queue, make_ready}
use ece334operating_system.Threads.Queue.{wake_all, wake_in, wake_on, thread_wakeup}
use ece334operating_system.Threads.Yield.{elem}
use ece334operating_system.Threads.Lists.{NoDup, elem-cons, elem-nil, elem-pushback}
use ece334operating_system.Threads.Inv.{
  waiting, IsIn, Inv, Unlisted, same_ref_refl, set_queue-Inv, make_ready-Inv,
}

-- a suspended thread outside the lists
pub record IsFree (s : State) (i : ℕ) : Type 0 where
  pub is_in : IsIn s i suspended
  pub unlisted : Unlisted s i

make_free : {s : State} (i : ℕ) → Inv s → IsFree s i → Inv (make_ready i s)
make_free {s} i v f =
    make_ready-Inv i v f.unlisted (λ e. let r = v.runs in ground (arith, f.is_in)) f.is_in.0
      f.is_in.2

make_ready-IsFree : {s : State} (i j : ℕ) → i ≢ j → IsFree s j → IsFree (make_ready i s) j
unfolding make_ready
make_ready-IsFree {s} i j ne f =
    let h : (i == j) ≡ false = ne→== i j ne in
    record {
      is_in = rw h f.is_in;
      unlisted = record {
        not_ready = ground (arith, elem-pushback j i s.ready_list, f.unlisted.not_ready);
        not_waiting = f.unlisted.not_waiting;
      };
    }

pub wake_all-Inv :
    (l : List ℕ) {s : State}
    → Inv s
    → ((i : ℕ) → elem i l ≡ true → IsFree s i)
    → NoDup l
    → Inv (wake_all l s).1
unfolding wake_all
wake_all-Inv [] v f d = v
wake_all-Inv (i ∷ l) {s} v f d =
    let free : IsFree s i = f i (elem-cons i i l ∙ ground arith) in
    let rest : (j : ℕ) → elem j l ≡ true → IsFree (make_ready i s) j =
      λ j h. make_ready-IsFree i j (λ e. cc) (f j (elem-cons j i l ∙ ground arith)) in
    wake_all-Inv l (make_free i v free) rest d.1

-- A thread that its queue has lost is free.
popped :
    {s : State} (q : QueueRef) (k l : List ℕ) (i : ℕ)
    → Inv s
    → s.queues q ≡ some k
    → elem i k ≡ true
    → elem i l ≡ false
    → IsFree (set_queue s q (some l)) i
popped {s} q k l i v e h out =
    let here : elem i (waiting s q) ≡ true = rw e h in
    let st = v.listed.waits q i here in
    record {
      is_in = st;
      unlisted = record {
        not_ready = elim (Bool-cases (elem i s.ready_list)) [
          | inl r ↦ let w = v.listed.readies i r in ground (arith, st)
          | inr r ↦ r
        ];
        not_waiting = λ r. elim (Bool-cases (same_ref q r)) [
          | inl this ↦ rw this out
          | inr other ↦ elim (Bool-cases (elem i (waiting s r))) [
            | inl w ↦
                let eq = v.listed.apart q r i here w in
                let self : same_ref q r ≡ true =
                  ap (λ t. same_ref q t) (sym eq) ∙ same_ref_refl q in
                cc
            | inr w ↦ rw other w
          ]
        ];
      };
    }

wake_in-Inv :
    {s : State} (q : QueueRef) (l : List ℕ) (all : ℕ)
    → Inv s
    → s.queues q ≡ some l
    → Inv (wake_in q l all s).1
unfolding wake_in
wake_in-Inv q [] all v e = v
wake_in-Inv {s} q (i ∷ l) all v e =
    let d : NoDup (i ∷ l) = rw e at (v.listed.wait_once q) in
    let one : Inv (make_ready i (set_queue s q (some l))) =
      make_free i
        (set_queue-Inv q (some l) v (λ j h. rw e (elem-cons j i l ∙ ground (arith, h))) d.1)
        (popped q (i ∷ l) l i v e (elem-cons i i l ∙ ground arith) d.0) in
    let every : Inv (wake_all (i ∷ l) (set_queue s q (some []))).1 =
      wake_all-Inv (i ∷ l) (set_queue-Inv q (some []) v (λ j h. ground (arith, elem-nil j, h)) tt)
        (λ j h. popped q (i ∷ l) [] j v e h (elem-nil j)) d in
    elim (Bool-cases (all == 0)) [
      | inl zero_ ↦ rw zero_ one
      | inr some_ ↦ elim (Bool-cases (all == 1)) [
        | inl one_ ↦ rw (some_, one_) every
        | inr other ↦ rw (some_, other) v
      ]
    ]

-- thread_wakeup keeps the invariant.
pub thread_wakeup-Inv : {s : State} (q : QueueRef) (all : ℕ) → Inv s → Inv (thread_wakeup q all s).1
unfolding thread_wakeup wake_on
thread_wakeup-Inv {s} q all v = elim (Option-cases (s.queues q)) [
  | inl e ↦ rw e v
  | inr (l, e) ↦ rw e (wake_in-Inv q l all v e)
]
