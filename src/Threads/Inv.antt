-- ===== src/Threads/Inv.antt =====
-- The invariant of threads/thread.c: one thread runs, and every other thread stands in at most one of the
-- ready list and the wait queues, by its status.
use ece334operating_system.Prelude.{
  ℕ, ◌<◌, ◌≡◌, ◌≢◌, Bool, true, false, Option, none, some, List, [], ◌==◌, arith, inl, inr, sym,
  Bool-cases, ==→eq, ==→ne,
}
use ece334operating_system.Threads.{
  Status, ready, running, suspended, QueueRef, user, of_thread, of_lock, of_cv, same_ref, Thread,
  Lock, State, thread_of, set_thread, set_queue, make_ready, switch_to,
}
use ece334operating_system.Threads.Yield.{elem}
use ece334operating_system.Threads.Lists.{NoDup, elem-pushback, NoDup-pushback}

abbrev pub members : Option (List ℕ) → List ℕ
members none = []
members (some l) = l

-- the threads of a wait queue; NULL has none
abbrev pub waiting : State → QueueRef → List ℕ
waiting s q = members (s.queues q)

-- a thread that exists, with its status
abbrev pub IsIn : State → ℕ → Status → Type 0
IsIn s i st = (i < 1024) × ((thread_of s i).status ≡ st) × ((thread_of s i).exist ≡ true)

-- The lists: each holds existing threads of its status, and no thread stands in two places.
pub record Listed (s : State) : Type 0 where
  pub readies : (i : ℕ) → elem i s.ready_list ≡ true → IsIn s i ready
  pub waits : (q : QueueRef) (i : ℕ) → elem i (waiting s q) ≡ true → IsIn s i suspended
  pub ready_once : NoDup s.ready_list
  pub wait_once : (q : QueueRef) → NoDup (waiting s q)
  pub apart :
      (q r : QueueRef) (i : ℕ) → elem i (waiting s q) ≡ true → elem i (waiting s r) ≡ true → q ≡ r

pub record Inv (s : State) : Type 0 where
  pub runs : IsIn s s.current running
  pub alone : (i : ℕ) → (thread_of s i).status ≡ running → i ≡ s.current
  pub listed : Listed s

-- the invariant of the state that a call leaves, where it leaves one
abbrev pub AllInv {ℓ} : {A : Type ℓ} → Option (A × State) → Type 0
AllInv none = Unit
AllInv (some r) = Inv r.1

abbrev pub EndsInv : Option State → Type 0
EndsInv none = Unit
EndsInv (some s) = Inv s

-- a thread outside every list
pub record Unlisted (s : State) (i : ℕ) : Type 0 where
  pub not_ready : elem i s.ready_list ≡ false
  pub not_waiting : (q : QueueRef) → elem i (waiting s q) ≡ false

pub same_ref-eq : (q r : QueueRef) → same_ref q r ≡ true → q ≡ r
same_ref-eq (user a) (user b) h = ground arith
same_ref-eq (of_thread a) (of_thread b) h = ground arith
same_ref-eq (of_lock a) (of_lock b) h = ground arith
same_ref-eq (of_cv a) (of_cv b) h = ground arith
same_ref-eq (user a) (of_thread b) h = cc
same_ref-eq (user a) (of_lock b) h = cc
same_ref-eq (user a) (of_cv b) h = cc
same_ref-eq (of_thread a) (user b) h = cc
same_ref-eq (of_thread a) (of_lock b) h = cc
same_ref-eq (of_thread a) (of_cv b) h = cc
same_ref-eq (of_lock a) (user b) h = cc
same_ref-eq (of_lock a) (of_thread b) h = cc
same_ref-eq (of_lock a) (of_cv b) h = cc
same_ref-eq (of_cv a) (user b) h = cc
same_ref-eq (of_cv a) (of_thread b) h = cc
same_ref-eq (of_cv a) (of_lock b) h = cc

pub same_ref_refl : (q : QueueRef) → same_ref q q ≡ true
same_ref_refl (user a) = ground arith
same_ref_refl (of_thread a) = ground arith
same_ref_refl (of_lock a) = ground arith
same_ref_refl (of_cv a) = ground arith

-- A queue may lose threads.
pub set_queue-Listed :
    {s : State} (q : QueueRef) (l : Option (List ℕ))
    → Listed s
    → ((i : ℕ) → elem i (members l) ≡ true → elem i (waiting s q) ≡ true)
    → NoDup (members l)
    → Listed (set_queue s q l)
set_queue-Listed {s} q l v sub once = record {
  readies = v.readies;
  waits = λ r i h. v.waits r i (was r i h);
  ready_once = v.ready_once;
  wait_once = λ r. elim (Bool-cases (same_ref q r)) [
    | inl this ↦ rw this once
    | inr other ↦ rw other (v.wait_once r)
  ];
  apart = λ r t i h k. v.apart r t i (was r i h) (was t i k);
}
  where
    was :
        (r : QueueRef) (i : ℕ)
        → elem i (waiting (set_queue s q l) r) ≡ true
        → elem i (waiting s r) ≡ true
    was r i h = elim (Bool-cases (same_ref q r)) [
      | inl this ↦ rw (sym (same_ref-eq q r this)) (sub i (rw this at h))
      | inr other ↦ rw other at h
    ]

-- The ready list may lose threads.
pub set_ready-Listed :
    {s : State} (l : List ℕ)
    → Listed s
    → ((i : ℕ) → elem i l ≡ true → elem i s.ready_list ≡ true)
    → NoDup l
    → Listed (record s { ready_list = l })
set_ready-Listed {s} l v sub once = record {
  readies = λ i h. v.readies i (sub i h);
  waits = v.waits;
  ready_once = once;
  wait_once = v.wait_once;
  apart = v.apart;
}

-- What a thread outside the lists is, does not matter to them.
pub set_thread-Listed :
    {s : State} (i : ℕ) (t : Thread) → Listed s → Unlisted s i → Listed (set_thread s i t)
set_thread-Listed {s} i t v f = record {
  readies = λ j h. ground (arith, v.readies j, f.not_ready);
  waits = λ q j h. ground (arith, v.waits q j, f.not_waiting q);
  ready_once = v.ready_once;
  wait_once = v.wait_once;
  apart = v.apart;
}

pub set_thread-Unlisted :
    {s : State} {i : ℕ} (j : ℕ) (t : Thread) → Unlisted s i → Unlisted (set_thread s j t) i
set_thread-Unlisted j t f = record { not_ready = f.not_ready; not_waiting = f.not_waiting }

-- A thread outside the lists may become ready.
pub make_ready-Listed :
    {s : State} (i : ℕ)
    → Listed s
    → Unlisted s i
    → i < 1024
    → (thread_of s i).exist ≡ true
    → Listed (make_ready i s)
unfolding make_ready
make_ready-Listed {s} i v f lt e = record {
  readies = λ j h. ground (arith, v.readies j, elem-pushback j i s.ready_list);
  waits = λ q j h. ground (arith, v.waits q j, f.not_waiting q);
  ready_once = NoDup-pushback i s.ready_list v.ready_once f.not_ready;
  wait_once = v.wait_once;
  apart = v.apart;
}

pub make_ready-Inv :
    {s : State} (i : ℕ)
    → Inv s
    → Unlisted s i
    → i ≢ s.current
    → i < 1024
    → (thread_of s i).exist ≡ true
    → Inv (make_ready i s)
unfolding make_ready
make_ready-Inv {s} i v f ne lt e = record {
  runs = ground (arith, v.runs);
  alone = λ j h. ground (arith, v.alone j);
  listed = make_ready-Listed i v.listed f lt e;
}

pub set_queue-Inv :
    {s : State} (q : QueueRef) (l : Option (List ℕ))
    → Inv s
    → ((i : ℕ) → elem i (members l) ≡ true → elem i (waiting s q) ≡ true)
    → NoDup (members l)
    → Inv (set_queue s q l)
set_queue-Inv q l v sub once = record {
  runs = v.runs;
  alone = v.alone;
  listed = set_queue-Listed q l v.listed sub once;
}

-- The running thread stands in no list.
pub current-Unlisted : {s : State} → Inv s → Unlisted s s.current
current-Unlisted {s} v = record {
  not_ready = elim (Bool-cases (elem s.current s.ready_list)) [
    | inl h ↦ let r = v.listed.readies s.current h in ground (arith, v.runs)
    | inr h ↦ h
  ];
  not_waiting = λ q. elim (Bool-cases (elem s.current (waiting s q))) [
    | inl h ↦ let r = v.listed.waits q s.current h in ground (arith, v.runs)
    | inr h ↦ h
  ];
}

-- The switch to a thread outside the lists, where no thread runs.
pub switch_to-Inv :
    {s : State} (n : ℕ)
    → Listed s
    → Unlisted s n
    → n < 1024
    → (thread_of s n).exist ≡ true
    → ((j : ℕ) → j ≢ n → (thread_of s j).status ≢ running)
    → Inv (switch_to n s)
unfolding switch_to
switch_to-Inv {s} n v f lt e idle =
    let w = set_thread-Listed n (record (thread_of s n) { status = running }) v f in
    record {
      runs = ground arith;
      alone = λ j h. elim (Bool-cases (n == j)) [
        | inl this ↦ sym (==→eq n j this)
        | inr other ↦
            let k : (thread_of s j).status ≡ running = rw other at h in
            elim (idle j (λ q. ==→ne n j other (sym q)) k) [ ]
      ];
      listed = record {
        readies = w.readies;
        waits = w.waits;
        ready_once = w.ready_once;
        wait_once = w.wait_once;
        apart = w.apart;
      };
    }

-- Interrupts and locks do not matter to the invariant.
pub same-Inv :
    {s : State} (e : Bool) (k : ℕ → Option Lock) → Inv s → Inv (record s { enabled = e; locks = k })
same-Inv {s} e k v =
    let w = v.listed in
    record {
      runs = v.runs;
      alone = v.alone;
      listed = record {
        readies = w.readies;
        waits = w.waits;
        ready_once = w.ready_once;
        wait_once = w.wait_once;
        apart = w.apart;
      };
    }
