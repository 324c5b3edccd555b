-- ===== src/Tests/ThreadsTests.antt =====
-- threads/thread.c on a table of a few threads.
use ece334operating_system.Prelude.{◌≡◌, refl, true, false, none, some, [], ◌∷◌}
use ece334operating_system.Threads.{
  thread_any, sleeping, of_thread, of_lock, user, State, thread_of, set_thread, thread_init,
  pushback_rl, QueueRef, same_ref,
}
use ece334operating_system.Threads.Queue.{thread_wakeup, wait_queue_create}
use ece334operating_system.Threads.Yield.{thread_create, thread_yield, thread_exit}
use ece334operating_system.Threads.Sync.{lock_create}
use ece334operating_system.Threads.Inv.{Inv}
use ece334operating_system.Threads.Steps.{Reach, begin, next, creates, makes_queue, Reach-Inv}
use ece334operating_system.Threads.Turns.{length, GetsTurn, turns-liveness}
use ece334operating_system.Threads.Stuck.{thread_exit-stuck}
use ece334operating_system.Threads.Outcomes.{
  Woken, thread_wakeup-Woken, WakesLast, thread_sleep-wakeup, Creates, thread_create_lem,
}
use ece334operating_system.Threads.Endings.{
  Exits, thread_exit_lem, Kills, thread_kill_lem, Acquires, lock_acquire_lem,
}

-- Threads 0, 1 and 2, and an empty queue 7.
abbrev one_thread : State
one_thread = wait_queue_create 7 (thread_init true)

abbrev two_threads : State
two_threads = (thread_create true one_thread).1

abbrev three_threads : State
three_threads = (thread_create true two_threads).1

three_threads-Reach : Reach true three_threads
three_threads-Reach =
    next (next (next begin (makes_queue (thread_init true) 7)) (creates one_thread true))
      (creates two_threads true)

three_threads-ready : three_threads.ready_list ≡ 1 ∷ 2 ∷ []
unfolding thread_create thread_init wait_queue_create pushback_rl
three_threads-ready = refl

Reach-Inv_example : Inv three_threads
Reach-Inv_example = Reach-Inv true three_threads three_threads-Reach

three_threads-Inv : Inv three_threads
three_threads-Inv = Reach-Inv true three_threads three_threads-Reach

turns-liveness_example : GetsTurn (1 ∷ []) 2 [] three_threads
turns-liveness_example =
    turns-liveness (1 ∷ []) 2 [] three_threads three_threads-Inv three_threads-ready

three_threads-queue : three_threads.queues (user 7) ≡ some []
unfolding thread_create thread_init wait_queue_create
three_threads-queue = refl

thread_sleep-wakeup_example : WakesLast sleeping (user 7) [] 1 (2 ∷ []) three_threads
thread_sleep-wakeup_example =
    thread_sleep-wakeup sleeping (user 7) [] 1 (2 ∷ []) three_threads three_threads-Inv
      three_threads-queue three_threads-ready

thread_create_lem_example : Creates three_threads
thread_create_lem_example = thread_create_lem three_threads

thread_exit_lem_example : Exits three_threads
thread_exit_lem_example = thread_exit_lem three_threads three_threads-Inv

three_threads-alone : three_threads.queues (of_thread three_threads.current) ≡ none
unfolding thread_create thread_init wait_queue_create
three_threads-alone = refl

thread_kill_lem_example : Kills three_threads 2
thread_kill_lem_example = thread_kill_lem three_threads 2 three_threads-Inv three_threads-alone

-- Lock 5, which is available.
abbrev with_lock : State
with_lock = lock_create 5 three_threads

with_lock-lock : with_lock.locks 5 ≡ some (record { available = true; acquired_id = thread_any })
unfolding lock_create
with_lock-lock = refl

with_lock-queue : with_lock.queues (of_lock 5) ≡ some []
unfolding lock_create
with_lock-queue = refl

lock_acquire_lem_example :
    Acquires 5 (record { available = true; acquired_id = thread_any }) [] with_lock
lock_acquire_lem_example =
    lock_acquire_lem 5 (record { available = true; acquired_id = thread_any }) [] with_lock
      with_lock-lock with_lock-queue

-- Threads 1 and 2 in the queue 7.
abbrev two_waiting : State
two_waiting = record three_threads {
  ready_list = [];
  queues = λ q. elim q [ user n ↦ some (1 ∷ 2 ∷ []) | other ↦ none ];
}

thread_wakeup-Woken_example :
    ((thread_wakeup (user 7) 1 two_waiting).0 ≡ length (1 ∷ 2 ∷ []))
    × ((thread_wakeup (user 7) 1 two_waiting).1.queues (user 7) ≡ some [])
    × ((p : QueueRef)
        → same_ref (user 7) p ≡ false
        → (thread_wakeup (user 7) 1 two_waiting).1.queues p ≡ two_waiting.queues p)
    × Woken (1 ∷ 2 ∷ []) two_waiting (thread_wakeup (user 7) 1 two_waiting).1
thread_wakeup-Woken_example = thread_wakeup-Woken (user 7) (1 ∷ 2 ∷ []) two_waiting refl

-- Thread 1 is killed where another thread has put it on the ready list again.
abbrev killed_first : State
killed_first = set_thread three_threads 1 (record (thread_of three_threads 1) { exist = false })

thread_exit-stuck_example :
    (thread_yield 100 thread_any killed_first ≡ none) × (thread_exit 100 killed_first ≡ none)
thread_exit-stuck_example =
    thread_exit-stuck 100 1 killed_first
      (record { behind = 2 ∷ []; first = three_threads-ready; killed = refl })
