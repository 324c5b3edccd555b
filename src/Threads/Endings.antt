-- ===== src/Threads/Endings.antt =====
-- What thread_exit, thread_kill and lock_acquire of threads/thread.c do on each branch.
use ece334operating_system.Prelude.{
  ℕ, suc, ◌≡◌, refl, true, false, none, some, List, [], ◌∷◌, ◌++◌, if◌then◌else◌, arith, ◌⊎◌, inl,
  inr, ◌∙◌, ap, sym, Bool-cases, Option-cases, eq→==, update, update_self,
}
use mathlib.Core.List.{append-nil}
use ece334operating_system.Threads.{
  tid, thread_any, thread_none, thread_invalid, Caller, acquires, returns, done, switched, spins,
  QueueRef, of_thread, of_lock, Lock, State, thread_of, set_thread, switch_to,
}
use ece334operating_system.Threads.Queue.{block_on, sleep_in, sleep_on, thread_sleep}
use ece334operating_system.Threads.Yield.{
  elem, remove, delete_node, wake_waiters, after_exit, map_result, leave, exit_by, thread_yield,
  thread_exit, mark_killed, in_list, kill_node, kill_ready, kill_empty, kill_found, kill_in,
  thread_kill,
}
use ece334operating_system.Threads.Sync.{try_again, acquire_lock, lock_acquire}
use ece334operating_system.Threads.Lists.{List-cases, elem-remove, delete_node-remove}
use ece334operating_system.Threads.Inv.{waiting, Inv}
use ece334operating_system.Threads.Outcomes.{block_on-queue, thread_wakeup-Woken}
use ece334operating_system.Threads.Exit.{
  Gone, succeed-Gone, succeed, succeed-Inv, thread_yield-dead, wake_waiters-Inv,
}

wake_waiters-eq :
    (s : State)
    → ((wake_waiters s (s.queues (of_thread s.current))).current ≡ s.current)
      × ((wake_waiters s (s.queues (of_thread s.current))).ready_list
          ≡ s.ready_list ++ waiting s (of_thread s.current))
unfolding wake_waiters
wake_waiters-eq s = elim (Option-cases (s.queues (of_thread s.current))) [
  | inl e ↦ rw e (refl, sym (append-nil s.ready_list))
  | inr (q, e) ↦
      let w = thread_wakeup-Woken (of_thread s.current) q s e in rw e (w.3.current_eq, w.3.ready_eq)
]

at_caller : (i j : ℕ) (s : State) → i ≡ j → Gone i s → Gone j s
at_caller i j s e g = rw (sym e) g

-- No thread is left, or the first ready one runs.
abbrev pub Exits : State → Type 0
Exits s =
    ((s.ready_list ++ waiting s (of_thread s.current) ≡ [])
      × ((k : ℕ) → (s' : State) × (thread_exit k s ≡ some (returns thread_none, s'))))
    ⊎ ((next : ℕ) × (rest : List ℕ) × (s' : State) × (s.ready_list
            ++ waiting s (of_thread s.current)
          ≡ next ∷ rest)
        × ((k : ℕ) → thread_exit (suc k) s ≡ some (switched, s'))
        × (s'.current ≡ next)
        × (s'.ready_list ≡ rest)
        × Gone s.current s'
        × Inv s')

-- Where the invariant holds, thread_exit wakes the threads that wait for the caller. Where then no thread is
-- ready it returns THREAD_NONE. Otherwise it switches to the first ready thread, whatever the fuel; the
-- caller is then exited, does not exist, and stands in no list, and the invariant holds.
pub thread_exit_lem : (s : State) → Inv s → Exits s
unfolding thread_exit exit_by leave after_exit switch_to
thread_exit_lem s v =
    let w = wake_waiters s (s.queues (of_thread s.current)) in
    let u : Inv w = wake_waiters-Inv (s.queues (of_thread s.current)) v in
    let e = wake_waiters-eq s in
    elim (List-cases w.ready_list) [
      | inl r ↦
          inl (sym e.1 ∙ r, λ k. (w, ap (λ l. leave (λ t. thread_yield k thread_any t) l w) r))
      | inr (next, rest, r) ↦ inr (
        next,
        rest,
        succeed next rest w,
        sym e.1 ∙ r,
        (λ k.
            ap (λ l. leave (λ t. thread_yield (suc k) thread_any t) l w) r
            ∙ ap (map_result after_exit) (thread_yield-dead k next rest u r)),
        refl,
        refl,
        at_caller w.current s.current (succeed next rest w) e.0 (succeed-Gone next rest u r),
        succeed-Inv next rest u r,
      )
    ]

-- the killed thread, without a stack
abbrev freed_thread : ℕ → State → State
freed_thread i s =
    let m = mark_killed (tid i) s in set_thread m i (record (thread_of m i) { stack = false })

freed_thread-exist : (i : ℕ) (s : State) → (thread_of (freed_thread i s) i).exist ≡ false
freed_thread-exist i s = rw (eq→== i i refl) refl

kill_ready-eq :
    (s : State) (i : ℕ)
    → delete_node true i s.ready_list ≡ some (remove i s.ready_list)
    → kill_ready (tid i) (mark_killed (tid i) s)
      ≡ some (tid i, record (freed_thread i s) { ready_list = remove i s.ready_list })
unfolding kill_ready kill_node
kill_ready-eq s i d = ap (kill_node i (mark_killed (tid i) s)) d

kill_in-cons :
    (i j : ℕ) (l : List ℕ) (s : State)
    → s.ready_list ≡ j ∷ l
    → kill_in (tid i) s.ready_list none s
      ≡ (if elem i s.ready_list then kill_ready (tid i) (mark_killed (tid i) s) else none)
unfolding kill_in kill_found in_list
kill_in-cons i j l s r =
    ap (λ m. kill_in (tid i) m none s) r
    ∙ ap (λ m. if elem i m then kill_ready (tid i) (mark_killed (tid i) s) else none) (sym r)

-- The three ways thread_kill ends.
abbrev pub Kills : State → ℕ → Type 0
Kills s i =
    ((elem i s.ready_list ≡ true)
      × (s' : State) × (thread_kill (tid i) s ≡ some (tid i, s'))
      × ((thread_of s' i).exist ≡ false)
      × ((thread_of s' i).stack ≡ false)
      × (s'.ready_list ≡ remove i s.ready_list)
      × (elem i s'.ready_list ≡ false))
    ⊎ (((s.ready_list ≡ []) × (thread_kill (tid i) s ≡ some (thread_invalid, s)))
        ⊎ ((elem i s.ready_list ≡ false) × (thread_kill (tid i) s ≡ none)))

-- thread_kill by a caller that has no wait queue, where the invariant holds. On a thread of the ready list it
-- returns the thread, which then has no stack, does not exist and is not in the ready list, whose other
-- threads keep their order; where the ready list is empty it returns THREAD_INVALID and changes nothing; on
-- any other thread it goes through NULL.
pub thread_kill_lem :
    (s : State) (i : ℕ) → Inv s → s.queues (of_thread s.current) ≡ none → Kills s i
unfolding thread_kill kill_in kill_empty
thread_kill_lem s i v e = elim (List-cases s.ready_list) [
  | inl r ↦
      inr (
        inl
          (r, ap (λ o. kill_in (tid i) s.ready_list o s) e ∙ ap (λ l. kill_in (tid i) l none s) r))
  | inr (j, l, r) ↦
      let start : thread_kill (tid i) s
          ≡ (if elem i s.ready_list then kill_ready (tid i) (mark_killed (tid i) s) else none) =
        ap (λ o. kill_in (tid i) s.ready_list o s) e ∙ kill_in-cons i j l s r in
      elim (Bool-cases (elem i s.ready_list)) [
        | inl there ↦
            let once = v.listed.ready_once in
            let killed = kill_ready-eq s i (delete_node-remove i s.ready_list once there) in
            inl (
              there,
              record (freed_thread i s) { ready_list = remove i s.ready_list },
              start
                  ∙ ap (λ b. if b then kill_ready (tid i) (mark_killed (tid i) s) else none) there
                  ∙ killed,
              freed_thread-exist i s,
              ground arith,
              refl,
              elem-remove i i s.ready_list once ∙ ground arith,
            )
        | inr other ↦ inr (
            inr (
              other,
              start
                  ∙ ap (λ b. if b then kill_ready (tid i) (mark_killed (tid i) s) else none) other,
            ))
      ]
]

-- the caller holds the lock
abbrev holding : ℕ → Lock → State → State
holding l k s = record s {
  locks = update s.locks l (some (record k { available = false; acquired_id = tid s.current }));
}

lock_acquire-free :
    (l : ℕ) (k : Lock) (s : State)
    → s.locks l ≡ some k
    → k.available ≡ true
    → lock_acquire l s ≡ some (done, holding l k s)
unfolding lock_acquire acquire_lock
lock_acquire-free l k s e free = ap (λ o. acquire_lock l o s) e ∙ rw free refl

lock_acquire-held :
    (l : ℕ) (k : Lock) (q : List ℕ) (s : State)
    → s.locks l ≡ some k
    → k.available ≡ false
    → s.queues (of_lock l) ≡ some q
    → lock_acquire l s ≡ some (try_again (sleep_in (acquires l) (of_lock l) q s.ready_list s))
unfolding lock_acquire acquire_lock thread_sleep sleep_on
lock_acquire-held l k q s e held h =
    ap (λ o. acquire_lock l o s) e
    ∙ rw held (ap (λ o. some (try_again (sleep_on (acquires l) (of_lock l) o s))) h)

try_again-none :
    (c : Caller) (r : QueueRef) (q : List ℕ) (s : State)
    → try_again (sleep_in c r q [] s) ≡ (spins, s)
unfolding try_again sleep_in
try_again-none c r q s = refl

try_again-next :
    (c : Caller) (r : QueueRef) (q : List ℕ) (next : ℕ) (rest : List ℕ) (s : State)
    → try_again (sleep_in c r q (next ∷ rest) s) ≡ (switched, block_on c r q next rest s)
unfolding try_again sleep_in
try_again-next c r q next rest s = refl

-- The three ways lock_acquire goes.
abbrev pub Acquires : ℕ → Lock → List ℕ → State → Type 0
Acquires l k q s =
    ((k.available ≡ true)
      × (s' : State) × (lock_acquire l s ≡ some (done, s'))
      × (s'.locks l ≡ some (record { available = false; acquired_id = tid s.current }))
      × (s'.current ≡ s.current)
      × (s'.ready_list ≡ s.ready_list))
    ⊎ (((k.available ≡ false)
          × (next : ℕ) × (rest : List ℕ) × (s' : State) × (s.ready_list ≡ next ∷ rest)
          × (lock_acquire l s ≡ some (switched, s'))
          × (s'.locks ≡ s.locks)
          × (s'.current ≡ next)
          × (s'.queues (of_lock l) ≡ some (q ++ (s.current ∷ []))))
        ⊎ ((k.available ≡ false) × (s.ready_list ≡ []) × (lock_acquire l s ≡ some (spins, s))))

pub lock_acquire_lem :
    (l : ℕ) (k : Lock) (q : List ℕ) (s : State)
    → s.locks l ≡ some k
    → s.queues (of_lock l) ≡ some q
    → Acquires l k q s
unfolding block_on switch_to
lock_acquire_lem l k q s e h = elim (Bool-cases k.available) [
  | inl free ↦ inl (
    free,
    holding l k s,
    lock_acquire-free l k s e free,
    update_self s.locks l (some (record { available = false; acquired_id = tid s.current })),
    refl,
    refl,
  )
  | inr held ↦ elim (List-cases s.ready_list) [
    | inl r ↦ inr (
        inr (
          held,
          r,
          lock_acquire-held l k q s e held h
              ∙ ap (λ m. some (try_again (sleep_in (acquires l) (of_lock l) q m s))) r
              ∙ ap some (try_again-none (acquires l) (of_lock l) q s),
        ))
    | inr (next, rest, r) ↦ inr (
        inl (
          held,
          next,
          rest,
          block_on (acquires l) (of_lock l) q next rest s,
          r,
          lock_acquire-held l k q s e held h
              ∙ ap (λ m. some (try_again (sleep_in (acquires l) (of_lock l) q m s))) r
              ∙ ap some (try_again-next (acquires l) (of_lock l) q next rest s),
          refl,
          refl,
          block_on-queue (acquires l) (of_lock l) q next rest s,
        ))
  ]
]
