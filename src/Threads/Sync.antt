-- ===== src/Threads/Sync.antt =====
-- thread_wait, the locks and the condition variables of threads/thread.c, and how a thread goes on after
-- a switch. An outer `none` is a failed assertion or an access outside TotalList.
use ece334operating_system.Prelude.{
  ℕ, Bool, true, false, not, ◌||◌, Option, none, some, List, [], ltb, ◌==◌, if◌then◌else◌, update,
}
use ece334operating_system.Threads.{
  thread_max_threads, Tid, tid, thread_any, thread_invalid, Context, entry, in_yield, in_sleep,
  Caller, sleeping, waits_for, acquires, of_thread, of_lock, of_cv, Lock, State, thread_of,
  set_queue, Outcome, returns, done, starts, spins,
}
use ece334operating_system.Threads.Queue.{thread_sleep, thread_wakeup}

unfoldable pub has_queue : Option (List ℕ) → Bool
has_queue none = false
has_queue (some q) = true

-- thread_wait returns the thread whatever thread_sleep does.
unfoldable pub waited : ℕ → Outcome × State → Outcome × State
waited t (returns r, s) = (returns (tid t), s)
waited t (o, s) = (o, s)

unfoldable pub wait_on : ℕ → State → Outcome × State
unfolding has_queue waited
wait_on t s =
    let s1 : State =
      if has_queue (s.queues (of_thread t)) then s else set_queue s (of_thread t) (some []) in
    waited t (thread_sleep (waits_for t) (of_thread t) s1)

unfoldable pub thread_wait : Tid → State → Option (Outcome × State)
unfolding wait_on
thread_wait (tid t) s =
    if t == s.current || ltb thread_max_threads t
    then some (returns thread_invalid, s)
    else if t == thread_max_threads
    then none
    else if not (thread_of s t).exist
    then some (returns thread_invalid, s)
    else some (wait_on t s)
thread_wait _ s = some (returns thread_invalid, s)

unfoldable pub lock_create : ℕ → State → State
lock_create l s =
    let k : Lock = record { available = true; acquired_id = thread_any } in
    record (set_queue s (of_lock l) (some [])) { locks = update s.locks l (some k) }

unfoldable pub destroy_lock : ℕ → Option Lock → State → Option State
destroy_lock l none s = none
destroy_lock l (some k) s =
    let destroyed : State = record (set_queue s (of_lock l) none) {
      locks = update s.locks l none;
    } in
    some (if k.available then destroyed else s)

-- A lock that is not available is left.
unfoldable pub lock_destroy : ℕ → State → Option State
unfolding destroy_lock
lock_destroy l s = destroy_lock l (s.locks l) s

-- With no other thread to run, thread_sleep returns, and the loop of lock_acquire tries again for ever.
unfoldable pub try_again : Outcome × State → Outcome × State
try_again (returns t, s) = (spins, s)
try_again (o, s) = (o, s)

unfoldable pub acquire_lock : ℕ → Option Lock → State → Option (Outcome × State)
unfolding try_again
acquire_lock l none s = none
acquire_lock l (some k) s =
    if k.available
    then some (
      done,
      record s {
        locks =
            update s.locks l (some (record k { available = false; acquired_id = tid s.current }));
      },
    )
    else some (try_again (thread_sleep (acquires l) (of_lock l) s))

-- From the test of the loop on.
unfoldable pub lock_acquire : ℕ → State → Option (Outcome × State)
unfolding acquire_lock
lock_acquire l s = acquire_lock l (s.locks l) s

unfoldable pub release_lock : ℕ → Option Lock → State → Option State
release_lock l none s = none
release_lock l (some k) s =
    let freed : State = record s {
      locks = update s.locks l (some (record k { available = true }));
    } in
    some (if k.available then s else (thread_wakeup (of_lock l) 1 freed).1)

-- Whoever calls it.
unfoldable pub lock_release : ℕ → State → Option State
unfolding release_lock
lock_release l s = release_lock l (s.locks l) s

unfoldable pub cv_create : ℕ → State → State
cv_create c s = set_queue s (of_cv c) (some [])

unfoldable pub destroy_cv : ℕ → Option (List ℕ) → State → Option State
destroy_cv c none s = none
destroy_cv c (some q) s = some (set_queue s (of_cv c) none)

-- With threads on it the queue leaks, and the condition variable is freed all the same.
unfoldable pub cv_destroy : ℕ → State → Option State
unfolding destroy_cv
cv_destroy c s = destroy_cv c (s.queues (of_cv c)) s

abbrev is_thread : ℕ → Tid → Bool
is_thread i (tid j) = i == j
is_thread i _ = false

unfoldable pub holder_is : State → Option Lock → Bool
holder_is s none = false
holder_is s (some k) = is_thread s.current k.acquired_id

-- `lock->acquiredID == currentThread`
abbrev pub acquired_by_current : ℕ → State → Bool
unfolding holder_is
acquired_by_current l s = holder_is s (s.locks l)

-- A thread that does not sleep acquires the lock at once; one that sleeps does so when it goes on.
unfoldable pub wait_result : ℕ → Outcome × State → Option (Outcome × State)
wait_result l (returns t, s) = lock_acquire l s
wait_result l (o, s) = some (o, s)

unfoldable pub wait_released : ℕ → ℕ → Option State → Option (Outcome × State)
unfolding wait_result holder_is
wait_released c l none = none
wait_released c l (some s) =
    if acquired_by_current l s
    then wait_result l (thread_sleep (acquires l) (of_cv c) s)
    else lock_acquire l s

unfoldable pub with_cv : Option (List ℕ) → Option (Outcome × State) → Option (Outcome × State)
with_cv none r = none
with_cv (some q) r = r

unfoldable pub cv_wait : ℕ → ℕ → State → Option (Outcome × State)
unfolding wait_released with_cv
cv_wait c l s = with_cv (s.queues (of_cv c)) (wait_released c l (lock_release l s))

unfoldable pub notify : ℕ → Option (List ℕ) → ℕ → Option Lock → State → Option State
unfolding holder_is
notify c none all k s = none
notify c (some q) all none s = none
notify c (some q) all (some k) s =
    some (if holder_is s (some k) then (thread_wakeup (of_cv c) all s).1 else s)

unfoldable pub cv_signal : ℕ → ℕ → State → Option State
unfolding notify
cv_signal c l s = notify c (s.queues (of_cv c)) 0 (s.locks l) s

unfoldable pub cv_broadcast : ℕ → ℕ → State → Option State
unfolding notify
cv_broadcast c l s = notify c (s.queues (of_cv c)) 1 (s.locks l) s

-- What the current thread does after the switch to it.
unfoldable pub go_on_sleep : ℕ → Caller → State → Option (Outcome × State)
go_on_sleep next sleeping s = some (returns (tid next), s)
go_on_sleep next (waits_for t) s = some (returns (tid t), s)
go_on_sleep next (acquires l) s = lock_acquire l s

unfoldable pub go_on : Context → State → Option (Outcome × State)
unfolding go_on_sleep
go_on entry s = some (starts, s)
go_on (in_yield enabled) s = some (returns (thread_of s s.current).next_thread_id, s)
go_on (in_sleep next caller enabled) s = go_on_sleep next caller s

unfoldable pub resume : State → Option (Outcome × State)
unfolding go_on
resume s = go_on (thread_of s s.current).context s
