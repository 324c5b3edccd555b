-- ===== src/Threads/Create.antt =====
-- thread_create and thread_kill of threads/thread.c: the invariant.
use ece334operating_system.Prelude.{
  ℕ, zero, suc, ◌+◌, ◌<◌, ◌≤◌, ◌≡◌, ◌≢◌, refl, Bool, true, false, Option, none, some, List, [], ◌∷◌,
  ◌==◌, if◌then◌else◌, arith, inl, inr, ◌∙◌, ap, Bool-cases, update,
}
use ece334operating_system.Threads.{
  Tid, tid, thread_any, thread_self, thread_invalid, thread_none, thread_nomore, thread_nomemory,
  running, of_thread, same_ref, Thread, State, thread_of, set_thread, set_queue,
}
use ece334operating_system.Threads.Yield.{
  elem, find_unused, new_thread, place, create_at, thread_create, remove, in_list, mark_killed,
  kill_node, kill_ready, kill_empty, kill_found, kill_in, thread_kill,
}
use ece334operating_system.Threads.Lists.{elem-nil, elem-remove, NoDup-remove, delete_node-remove}
use ece334operating_system.Threads.Inv.{
  waiting, AllInv, Inv, Unlisted, set_queue-Inv, set_ready-Listed, set_thread-Listed,
  set_thread-Unlisted, make_ready-Inv, same-Inv,
}

-- What the search finds: the first unused element from `id` on.
abbrev pub Finds : ℕ → ℕ → (ℕ → Thread) → Option ℕ → Type 0
Finds k id list none = (i : ℕ) → id ≤ i → i < id + k → i < 1024 → (list i).exist ≡ true
Finds k id list (some n) =
    (id ≤ n)
    × (n < 1024)
    × ((list n).exist ≡ false)
    × ((i : ℕ) → id ≤ i → i < n → (list i).exist ≡ true)

pub find_unused-Finds :
    (k id : ℕ) (list : ℕ → Thread) → id < 1024 → Finds k id list (find_unused k id list)
unfolding find_unused
find_unused-Finds zero id list lt = λ i a b c. ground arith
find_unused-Finds (suc k) id list lt = elim (Bool-cases (list id).exist) [
  | inl here ↦ elim (Bool-cases (id == 1023)) [
    | inl end ↦ rw (here, end) (λ i a b c. ground arith)
    | inr go ↦
        rw (here, go)
          (widen k id list here (find_unused k (id + 1) list)
            (find_unused-Finds k (id + 1) list (ground arith)))
  ]
  | inr free ↦ rw free (ground arith)
]
  where
    widen :
        (k id : ℕ) (list : ℕ → Thread)
        → (list id).exist ≡ true
        → (o : Option ℕ) → Finds k (id + 1) list o
        → Finds (suc k) id list o
    widen k id list here none f = λ i a b c. elim (Bool-cases (id == i)) [
      | inl this ↦ ground arith
      | inr other ↦ f i (ground arith) (ground arith) c
    ]
    widen k id list here (some n) f = (
      ground arith,
      f.1,
      f.2,
      λ i a b. elim (Bool-cases (id == i)) [
        | inl this ↦ ground arith
        | inr other ↦ f.3 i (ground arith) b
      ],
    )

unused-Unlisted : {s : State} (i : ℕ) → Inv s → (thread_of s i).exist ≡ false → Unlisted s i
unused-Unlisted {s} i v e = record {
  not_ready = elim (Bool-cases (elem i s.ready_list)) [
    | inl h ↦ let r = v.listed.readies i h in ground (arith, e)
    | inr h ↦ h
  ];
  not_waiting = λ q. elim (Bool-cases (elem i (waiting s q))) [
    | inl h ↦ let r = v.listed.waits q i h in ground (arith, e)
    | inr h ↦ h
  ];
}

-- A thread that is not running may change, outside the lists, to one that is not running either.
set_thread-Inv :
    {s : State} (i : ℕ) (t : Thread)
    → Inv s
    → Unlisted s i
    → i ≢ s.current
    → t.status ≢ running
    → Inv (set_thread s i t)
set_thread-Inv {s} i t v f ne st = record {
  runs = ground (arith, v.runs);
  alone = λ j h. ground (arith, v.alone j, st);
  listed = set_thread-Listed i t v.listed f;
}

emptied-Unlisted : {s : State} (i : ℕ) → Unlisted s i → Unlisted (set_queue s (of_thread i) none) i
emptied-Unlisted {s} i f = record {
  not_ready = f.not_ready;
  not_waiting = λ q. elim (Bool-cases (same_ref (of_thread i) q)) [
    | inl this ↦ rw this (elem-nil i)
    | inr other ↦ rw other (f.not_waiting q)
  ];
}

place-Inv :
    {s : State} (stack : Bool) (i : ℕ)
    → Inv s
    → (thread_of s i).exist ≡ false
    → Inv (place i (new_thread stack) s)
place-Inv {s} stack i v e =
    set_thread-Inv i (new_thread stack)
      (set_queue-Inv (of_thread i) none v (λ j h. ground (arith, elem-nil j, h)) tt)
      (emptied-Unlisted i (unused-Unlisted i v e)) (λ q. ground (arith, v.runs)) (λ q. ground arith)

create_at-Inv :
    {s : State} (stack : Bool) (o : Option ℕ)
    → Inv s
    → Finds 1024 1 s.total_list o
    → Inv (create_at stack s o).1
unfolding create_at
create_at-Inv {s} stack none v f = same-Inv false s.locks v
create_at-Inv {s} false (some i) v f = same-Inv false s.locks (place-Inv false i v f.2)
create_at-Inv {s} true (some i) v f =
    make_ready-Inv i (place-Inv true i v f.2)
      (set_thread-Unlisted i (new_thread true) (emptied-Unlisted i (unused-Unlisted i v f.2)))
      (λ q. ground (arith, v.runs, f.2)) f.1 (ground arith)

-- thread_create keeps the invariant.
pub thread_create-Inv : {s : State} (stack : Bool) → Inv s → Inv (thread_create stack s).1
unfolding thread_create
thread_create-Inv {s} stack v =
    create_at-Inv stack (find_unused 1024 1 s.total_list) v
      (find_unused-Finds 1024 1 s.total_list (omega arith))

-- Killing a thread of the ready list.
kill_ready-Inv :
    {s : State} (i : ℕ)
    → Inv s
    → elem i s.ready_list ≡ true
    → AllInv (kill_ready (tid i) (mark_killed (tid i) s))
unfolding kill_ready kill_node
kill_ready-Inv {s} i v h =
    let st = v.listed.readies i h in
    let l = remove i s.ready_list in
    let off : (j : ℕ) → elem j l ≡ (if i == j then false else elem j s.ready_list) =
      λ j. elem-remove j i s.ready_list v.listed.ready_once in
    let cut : Inv (record s { ready_list = l }) = record {
      runs = v.runs;
      alone = v.alone;
      listed =
          set_ready-Listed l v.listed (λ j k. ground (arith, off j, k))
            (NoDup-remove i s.ready_list v.listed.ready_once);
    } in
    let out : Unlisted (record s { ready_list = l }) i = record {
      not_ready = off i ∙ ground arith;
      not_waiting = λ q. elim (Bool-cases (elem i (waiting s q))) [
        | inl w ↦ let u = v.listed.waits q i w in ground (arith, st)
        | inr w ↦ w
      ];
    } in
    let ne : i ≢ s.current = λ e. ground (arith, v.runs, st) in
    let dead : Thread = record (thread_of s i) { exist = false } in
    let marked : Inv (set_thread (record s { ready_list = l }) i dead) =
      set_thread-Inv i dead cut out ne (λ e. ground (arith, st)) in
    rw (delete_node-remove i s.ready_list v.listed.ready_once h) (
      set_thread-Inv i (record (update s.total_list i dead i) { stack = false }) marked
        (set_thread-Unlisted i dead out) ne (λ e. ground (arith, st)))

kill_in-Inv :
    {s : State} (t : Tid) (l : List ℕ) → Inv s → s.ready_list ≡ l → AllInv (kill_in t l none s)
unfolding kill_in kill_empty kill_found in_list
kill_in-Inv t [] v r = v
kill_in-Inv {s} (tid j) (i ∷ l) v r = elim (Bool-cases (elem j (i ∷ l))) [
  | inl h ↦ rw h (kill_ready-Inv j v (ap (λ k. elem j k) r ∙ h))
  | inr h ↦ rw h tt
]
kill_in-Inv thread_any (i ∷ l) v r = tt
kill_in-Inv thread_self (i ∷ l) v r = tt
kill_in-Inv thread_invalid (i ∷ l) v r = tt
kill_in-Inv thread_none (i ∷ l) v r = tt
kill_in-Inv thread_nomore (i ∷ l) v r = tt
kill_in-Inv thread_nomemory (i ∷ l) v r = tt

-- thread_kill keeps the invariant where the caller has no wait queue.
pub thread_kill-Inv :
    {s : State} (t : Tid) → s.queues (of_thread s.current) ≡ none → Inv s → AllInv (thread_kill t s)
unfolding thread_kill
thread_kill-Inv {s} t e v = rw e (kill_in-Inv t s.ready_list v refl)
