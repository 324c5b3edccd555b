-- ===== src/Threads/Sleep.antt =====
-- thread_sleep and thread_wait of threads/thread.c keep the invariant.
use ece334operating_system.Prelude.{
  ℕ, ◌≡◌, refl, true, false, some, List, [], ◌∷◌, ◌==◌, ◌||◌, not, ltb, arith, ◌⊎◌, inl, inr, ◌∙◌,
  sym, Bool-cases, Option-cases, ==→eq, ne→==,
}
use ece334operating_system.Threads.{
  Tid, tid, thread_any, thread_self, thread_invalid, thread_none, thread_nomore, thread_nomemory,
  Outcome, done, switched, starts, spins, Caller, in_sleep, suspended, QueueRef, of_thread,
  same_ref, Thread, State, thread_of, set_thread, set_queue, pushback_rl, waits_for, returns,
}
use ece334operating_system.Threads.Queue.{pushback_wq, block_on, sleep_in, sleep_on, thread_sleep}
use ece334operating_system.Threads.Yield.{elem}
use ece334operating_system.Threads.Sync.{has_queue, waited, wait_on, thread_wait}
use ece334operating_system.Threads.Lists.{
  NoDup, elem-cons, elem-nil, elem-pushback, NoDup-pushback, pushback_wq-eq,
}
use ece334operating_system.Threads.Inv.{
  waiting, IsIn, AllInv, Listed, Inv, Unlisted, same_ref-eq, set_queue-Inv, set_ready-Listed,
  set_thread-Listed, current-Unlisted, switch_to-Inv,
}

-- A suspended thread outside the lists may go to the end of a queue.
enqueue-Listed :
    {s : State} (q : QueueRef) (l : List ℕ) (i : ℕ)
    → Listed s
    → s.queues q ≡ some l
    → Unlisted s i
    → IsIn s i suspended
    → Listed (set_queue s q (some (pushback_wq l i)))
enqueue-Listed {s} q l i v e f st = record {
  readies = v.readies;
  waits = λ r j h. elim (was r j h) [ inl here ↦ v.waits r j here | inr new ↦ rw new.1 st ];
  ready_once = v.ready_once;
  wait_once = λ r. elim (Bool-cases (same_ref q r)) [
    | inl this ↦
        rw (this, pushback_wq-eq l i)
          (NoDup-pushback i l (rw e at (v.wait_once q)) (rw e at (f.not_waiting q)))
    | inr other ↦ rw other (v.wait_once r)
  ];
  apart = λ r t j h k. elim (was r j h) [
    | inl here ↦ elim (was t j k) [
      | inl there ↦ v.apart r t j here there
      | inr new ↦
          let no = f.not_waiting r in
          let at_i : elem i (waiting s r) ≡ true = rw (sym new.1) here in cc
    ]
    | inr new ↦ elim (was t j k) [
      | inl there ↦
          let no = f.not_waiting t in
          let at_i : elem i (waiting s t) ≡ true = rw (sym new.1) there in cc
      | inr too ↦ sym new.0 ∙ too.0
    ]
  ];
}
  where
    was :
        (r : QueueRef) (j : ℕ)
        → elem j (waiting (set_queue s q (some (pushback_wq l i))) r) ≡ true
        → (elem j (waiting s r) ≡ true) ⊎ ((q ≡ r) × (j ≡ i))
    was r j h = elim (Bool-cases (same_ref q r)) [
      | inl this ↦
          let g : elem j (pushback_rl l i) ≡ true = rw (this, pushback_wq-eq l i) at h in
          elim (Bool-cases (i == j)) [
            | inl same ↦ inr (same_ref-eq q r this, sym (==→eq i j same))
            | inr ne ↦
                let m : elem j l ≡ true = rw ne at (sym (elem-pushback j i l) ∙ g) in
                inl (rw (sym (same_ref-eq q r this), e) m)
          ]
      | inr other ↦ inl (rw other at h)
    ]

block_on-Inv :
    {s : State} (caller : Caller) (q : QueueRef) (l : List ℕ) (next : ℕ) (rest : List ℕ)
    → Inv s
    → s.queues q ≡ some l
    → s.ready_list ≡ next ∷ rest
    → Inv (block_on caller q l next rest s)
unfolding block_on
block_on-Inv {s} caller q l next rest v e r =
    let i = s.current in
    let t : Thread = record (thread_of s i) {
      status = suspended;
      context = in_sleep next caller s.enabled;
    } in
    let d : NoDup (next ∷ rest) = rw r at v.listed.ready_once in
    let out = current-Unlisted v in
    let head : elem next s.ready_list ≡ true = rw r (elem-cons next next rest ∙ ground arith) in
    let st = v.listed.readies next head in
    let sub : (j : ℕ) → elem j rest ≡ true → elem j s.ready_list ≡ true =
      λ j h. rw r (elem-cons j next rest ∙ ground (arith, h)) in
    let asleep : Listed (record (set_thread s i t) { ready_list = rest }) =
      set_ready-Listed rest (set_thread-Listed i t v.listed out) sub d.1 in
    let off : Unlisted (record (set_thread s i t) { ready_list = rest }) i = record {
      not_ready = ground (arith, sub i, out.not_ready);
      not_waiting = out.not_waiting;
    } in
    let all : Listed
        (set_queue (record (set_thread s i t) { ready_list = rest }) q (some (pushback_wq l i))) =
      enqueue-Listed q l i asleep e off (ground (arith, v.runs)) in
    let ne : (i == next) ≡ false = ne→== i next (λ q. ground (arith, v.runs, st)) in
    switch_to-Inv next all
      (record {
        not_ready = d.0;
        not_waiting = λ p.
            elim (Bool-cases (
              elem next (
                waiting
                  (set_queue (record (set_thread s i t) { ready_list = rest }) q
                    (some (pushback_wq l i)))
                  p))) [ inl h ↦ let w = all.waits p next h in ground (arith, st) | inr h ↦ h ];
      })
      st.0 (rw ne st.2) (λ j nj. ground (arith, v.alone j))

sleep_in-Inv :
    {s : State} (caller : Caller) (q : QueueRef) (l k : List ℕ)
    → Inv s
    → s.queues q ≡ some l
    → s.ready_list ≡ k
    → Inv (sleep_in caller q l k s).1
unfolding sleep_in
sleep_in-Inv caller q l [] v e r = v
sleep_in-Inv caller q l (next ∷ rest) v e r = block_on-Inv caller q l next rest v e r

-- thread_sleep keeps the invariant, whether the caller sleeps or not.
pub thread_sleep-Inv :
    {s : State} (caller : Caller) (q : QueueRef) → Inv s → Inv (thread_sleep caller q s).1
unfolding thread_sleep sleep_on
thread_sleep-Inv {s} caller q v = elim (Option-cases (s.queues q)) [
  | inl e ↦ rw e v
  | inr (l, e) ↦ rw e (sleep_in-Inv caller q l s.ready_list v e refl)
]

waited-state : (t : ℕ) (r : Outcome × State) → (waited t r).1 ≡ r.1
unfolding waited
waited-state t (returns x, s) = refl
waited-state t (done, s) = refl
waited-state t (switched, s) = refl
waited-state t (starts, s) = refl
waited-state t (spins, s) = refl

wait_on-Inv : {s : State} (t : ℕ) → Inv s → Inv (wait_on t s).1
unfolding wait_on has_queue
wait_on-Inv {s} t v = elim (Option-cases (s.queues (of_thread t))) [
  | inl e ↦
      let w : Inv (set_queue s (of_thread t) (some [])) =
        set_queue-Inv (of_thread t) (some []) v (λ j h. ground (arith, elem-nil j, h)) tt in
      rw
        (
          e,
          waited-state t
              (thread_sleep (waits_for t) (of_thread t) (set_queue s (of_thread t) (some []))),
        )
        (thread_sleep-Inv (waits_for t) (of_thread t) w)
  | inr (l, e) ↦
      rw (e, waited-state t (thread_sleep (waits_for t) (of_thread t) s))
        (thread_sleep-Inv (waits_for t) (of_thread t) v)
]

-- thread_wait keeps the invariant.
pub thread_wait-Inv : {s : State} (t : Tid) → Inv s → AllInv (thread_wait t s)
unfolding thread_wait
thread_wait-Inv {s} (tid t) v = elim (Bool-cases (t == s.current || ltb 1024 t)) [
  | inl a ↦ rw a v
  | inr a ↦ elim (Bool-cases (t == 1024)) [
    | inl b ↦ rw (a, b) tt
    | inr b ↦ elim (Bool-cases (not (thread_of s t).exist)) [
      | inl c ↦ rw (a, b, c) v
      | inr c ↦ rw (a, b, c) (wait_on-Inv t v)
    ]
  ]
]
thread_wait-Inv thread_any v = v
thread_wait-Inv thread_self v = v
thread_wait-Inv thread_invalid v = v
thread_wait-Inv thread_none v = v
thread_wait-Inv thread_nomore v = v
thread_wait-Inv thread_nomemory v = v
