-- ===== src/Threads/Queue.antt =====
-- The wait queues of threads/thread.c: thread_sleep and thread_wakeup.
use ece334operating_system.Prelude.{ℕ, ◌+◌, Option, none, some, List, [], ◌∷◌, ◌==◌, if◌then◌else◌}
use ece334operating_system.Threads.{
  thread_invalid, thread_none, suspended, Caller, in_sleep, QueueRef, user, State, thread_of,
  set_thread, set_queue, Outcome, returns, switched, switch_to, make_ready,
}

-- pushbackWQ
unfoldable pub pushback_wq : List ℕ → ℕ → List ℕ
pushback_wq [] i = i ∷ []
pushback_wq (j ∷ l) i = j ∷ pushback_wq l i

-- The caller goes to the end of the queue, and the first ready thread runs, killed or not.
unfoldable pub block_on : Caller → QueueRef → List ℕ → ℕ → List ℕ → State → State
unfolding pushback_wq switch_to
block_on caller q l next rest s =
    let i = s.current in
    let t = thread_of s i in
    let blocked : State =
      set_thread s i (record t { status = suspended; context = in_sleep next caller s.enabled }) in
    let queued : State = set_queue blocked q (some (pushback_wq l i)) in
    switch_to next (record queued { ready_list = rest })

unfoldable pub sleep_in : Caller → QueueRef → List ℕ → List ℕ → State → Outcome × State
unfolding block_on
sleep_in caller q l [] s = (returns thread_none, s)
sleep_in caller q l (next ∷ rest) s = (switched, block_on caller q l next rest s)

unfoldable pub sleep_on : Caller → QueueRef → Option (List ℕ) → State → Outcome × State
unfolding sleep_in
sleep_on caller q none s = (returns thread_invalid, s)
sleep_on caller q (some l) s = sleep_in caller q l s.ready_list s

-- thread_sleep for a caller of this file or of another.
unfoldable pub thread_sleep : Caller → QueueRef → State → Outcome × State
unfolding sleep_on
thread_sleep caller q s = sleep_on caller q (s.queues q) s

-- The loop of thread_wakeup: each thread of the queue becomes ready, and is counted.
unfoldable pub wake_all : List ℕ → State → ℕ × State
unfolding make_ready
wake_all [] s = (0, s)
wake_all (i ∷ l) s = let r = wake_all l (make_ready i s) in (r.0 + 1, r.1)

unfoldable pub wake_in : QueueRef → List ℕ → ℕ → State → ℕ × State
unfolding make_ready wake_all
wake_in q [] all s = (0, s)
wake_in q (i ∷ l) all s =
    if all == 0
    then (1, make_ready i (set_queue s q (some l)))
    else if all == 1
    then wake_all (i ∷ l) (set_queue s q (some []))
    else (0, s)

unfoldable pub wake_on : QueueRef → Option (List ℕ) → ℕ → State → ℕ × State
unfolding wake_in
wake_on q none all s = (0, s)
wake_on q (some l) all s = wake_in q l all s

-- The number of threads that were woken up, and the new state.
unfoldable pub thread_wakeup : QueueRef → ℕ → State → ℕ × State
unfolding wake_on
thread_wakeup q all s = wake_on q (s.queues q) all s

unfoldable pub wait_queue_create : ℕ → State → State
wait_queue_create q s = set_queue s (user q) (some [])

unfoldable pub destroy_queue : ℕ → Option (List ℕ) → State → Option State
destroy_queue q none s = none
destroy_queue q (some l) s = some (set_queue s (user q) none)

-- The queue is freed whether or not threads wait in it; NULL is an access through NULL.
unfoldable pub wait_queue_destroy : ℕ → State → Option State
unfolding destroy_queue
wait_queue_destroy q s = destroy_queue q (s.queues (user q)) s
