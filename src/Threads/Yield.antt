-- ===== src/Threads/Yield.antt =====
-- Threads of threads/thread.c: thread_create, thread_yield, thread_exit and thread_kill. An outer `none`
-- is an access through NULL, or a recursion of thread_yield and thread_exit that does not end.
use ece334operating_system.Prelude.{
  ℕ, zero, suc, ◌+◌, Bool, true, false, not, ◌&&◌, Option, none, some, List, [], ◌∷◌, ltb, ◌==◌,
  if◌then◌else◌,
}
use ece334operating_system.Threads.{
  thread_max_threads, Tid, tid, thread_any, thread_self, thread_invalid, thread_none, thread_nomore,
  thread_nomemory, Status, ready, running, exited, entry, in_yield, of_thread, Thread, State,
  thread_of, set_thread, set_queue, Outcome, returns, switched, switch_to, make_ready,
}
use ece334operating_system.Threads.Queue.{thread_wakeup}

-- `k` rounds of the search of thread_create for an unused element, from `id` on
unfoldable pub find_unused : ℕ → ℕ → (ℕ → Thread) → Option ℕ
find_unused zero id list = none
find_unused (suc k) id list =
    let rest = if id == 1023 then none else find_unused k (id + 1) list in
    if (list id).exist then rest else some id

-- the new thread, before its stack
abbrev pub new_thread : Bool → Thread
new_thread stack = record {
  context = entry;
  status = ready;
  next_thread_id = thread_any;
  pre_thread_id = thread_any;
  stack = stack;
  exist = true;
}

-- The element is filled in; it has no wait queue.
abbrev pub place : ℕ → Thread → State → State
place id t s = set_thread (set_queue s (of_thread id) none) id t

unfoldable pub create_at : Bool → State → Option ℕ → Tid × State
create_at stack s none = (thread_nomore, record s { enabled = false })
create_at false s (some id) =
    (thread_nomemory, record (place id (new_thread false) s) { enabled = false })
create_at true s (some id) = (tid id, make_ready id (place id (new_thread true) s))

-- The flag says whether the stack can be allocated. A failure returns with interrupts off.
unfoldable pub thread_create : Bool → State → Tid × State
unfolding create_at find_unused make_ready
thread_create stack s = create_at stack s (find_unused thread_max_threads 1 s.total_list)

unfoldable pub elem : ℕ → List ℕ → Bool
elem i [] = false
elem i (j ∷ l) = let rest = elem i l in if j == i then true else rest

-- The next thread of thread_yield, with whether it was searched in the ready list; or the code that is
-- returned.
pub data Choice : Type 0 where
  chosen : Bool → ℕ → Choice
  refused : Tid → Choice

unfoldable pub choose_any : List ℕ → Choice
choose_any [] = refused thread_none
choose_any (i ∷ l) = chosen false i

unfoldable pub choose : Tid → State → Choice
unfolding choose_any
choose thread_any s = choose_any s.ready_list
choose thread_self s = chosen false s.current
choose (tid i) s =
    if i == s.current
    then chosen false i
    else if elem i s.ready_list
    then chosen true i
    else refused thread_invalid
choose _ s = refused thread_invalid

abbrev pub is_exited : Status → Bool
is_exited exited = true
is_exited _ = false

abbrev pub is_running : Status → Bool
is_running running = true
is_running _ = false

-- The stacks of exited threads are freed; the round past the end of TotalList is left out.
unfoldable pub free_stacks : State → State
free_stacks s = record s {
  total_list = λ i.
      let t = s.total_list i in
      if ltb i thread_max_threads && is_exited t.status && not t.exist
      then record t { stack = false }
      else t;
}

-- The two threads of a switch note each other.
unfoldable pub note_switch : ℕ → State → State
note_switch next s =
    let t = thread_of s s.current in
    let s1 : State = set_thread s s.current (record t { next_thread_id = tid next }) in
    let n = thread_of s1 next in set_thread s1 next (record n { pre_thread_id = tid s.current })

-- A caller that was running goes to the end of the ready list.
unfoldable pub requeue : ℕ → Bool → Bool → State → State
unfolding note_switch make_ready
requeue next false exist s = s
requeue next true false s =
    let t = thread_of s s.current in set_thread s s.current (record t { status = ready })
requeue next true true s = make_ready s.current (note_switch next s)

unfoldable pub save_context : State → State
save_context s =
    let t = thread_of s s.current in
    set_thread s s.current (record t { context = in_yield s.enabled })

unfoldable pub save_current : ℕ → State → State
unfolding requeue save_context
save_current next s =
    let t = thread_of s s.current in requeue next (is_running t.status) t.exist (save_context s)

unfoldable pub last : ℕ → List ℕ → ℕ
last i [] = i
last i (j ∷ l) = last j l

unfoldable pub without_last : ℕ → List ℕ → List ℕ
without_last i [] = []
without_last i (j ∷ l) = i ∷ without_last j l

unfoldable pub remove : ℕ → List ℕ → List ℕ
remove i [] = []
remove i (j ∷ l) = let rest = remove i l in if j == i then l else j ∷ rest

-- deleteNode on the first node of thread `i`, and the same in thread_yield; in the middle of the list
-- thread_yield needs the node that its search has found.
unfoldable pub delete_node : Bool → ℕ → List ℕ → Option (List ℕ)
unfolding last without_last remove
delete_node searched i [] = none
delete_node searched i (j ∷ l) =
    if i == j
    then some l
    else if i == last j l
    then some (without_last j l)
    else if searched
    then some (remove i (j ∷ l))
    else none

-- thread_exit, given what thread_yield does for it. What follows a switch never runs.
unfoldable pub wake_waiters : State → Option (List ℕ) → State
wake_waiters s none = s
wake_waiters s (some q) =
    set_queue (thread_wakeup (of_thread s.current) 1 s).1 (of_thread s.current) none

unfoldable pub after_exit : Outcome × State → Outcome × State
after_exit (returns t, s) = (returns thread_none, s)
after_exit (o, s) = (o, s)

abbrev pub map_result :
    (Outcome × State → Outcome × State) → Option (Outcome × State) → Option (Outcome × State)
map_result f none = none
map_result f (some r) = some (f r)

unfoldable pub leave :
    (State → Option (Outcome × State)) → List ℕ → State → Option (Outcome × State)
unfolding after_exit
leave yield_any [] s = some (returns thread_none, s)
leave yield_any (i ∷ l) s =
    let t = thread_of s s.current in
    map_result after_exit
      (yield_any (set_thread s s.current (record t { exist = false; status = exited })))

unfoldable pub exit_by : (State → Option (Outcome × State)) → State → Option (Outcome × State)
unfolding wake_waiters leave
exit_by yield_any s =
    let s1 = wake_waiters s (s.queues (of_thread s.current)) in leave yield_any s1.ready_list s1

unfoldable pub switch_with : ℕ → State → Option (List ℕ) → Option (Outcome × State)
unfolding switch_to
switch_with next s none = none
switch_with next s (some l) = some (switched, switch_to next (record s { ready_list = l }))

-- Where thread_exit returns to thread_yield, the killed thread runs.
unfoldable pub to_killed : ℕ → Outcome × State → Outcome × State
unfolding switch_to
to_killed next (returns t, s) = (switched, switch_to next s)
to_killed next (o, s) = (o, s)

-- The switch to the chosen thread. A killed one exits in its own name first.
unfoldable pub dispatch :
    Bool → (State → Option (Outcome × State)) → ℕ → Bool → State → Option (Outcome × State)
unfolding exit_by delete_node switch_with to_killed
dispatch searched yield_any next false s =
    map_result (to_killed next) (exit_by yield_any (record s { current = next }))
dispatch searched yield_any next true s =
    let skip = (next == 0) && is_exited (thread_of s next).status in
    switch_with next s (if skip then some s.ready_list else delete_node searched next s.ready_list)

unfoldable pub yield_to :
    (State → Option (Outcome × State)) → Choice → State → Option (Outcome × State)
unfolding free_stacks save_current dispatch
yield_to yield_any (refused t) s = some (returns t, s)
yield_to yield_any (chosen searched next) s =
    let s1 = save_current next (free_stacks s) in
    dispatch searched yield_any next (thread_of s1 next).exist s1

-- The fuel counts the calls of thread_yield and thread_exit by one another.
unfoldable pub thread_yield : ℕ → Tid → State → Option (Outcome × State)
unfolding yield_to choose
thread_yield zero want s = none
thread_yield (suc k) want s = yield_to (λ s. thread_yield k thread_any s) (choose want s) s

unfoldable pub thread_exit : ℕ → State → Option (Outcome × State)
unfolding exit_by
thread_exit k s = exit_by (λ s. thread_yield k thread_any s) s

unfoldable pub in_list : Tid → List ℕ → Bool
in_list (tid i) l = elem i l
in_list _ l = false

-- the thread with `exist` false
abbrev pub mark_killed : Tid → State → State
mark_killed (tid i) s = let t = thread_of s i in set_thread s i (record t { exist = false })
mark_killed _ s = s

-- The end of thread_kill where the caller has a wait queue.
unfoldable pub kill_waiter : Tid → List ℕ → State → Tid × State
unfolding in_list
kill_waiter t q s = if in_list t q then (t, mark_killed t s) else (thread_invalid, s)

-- And where it has none, on a thread of the ready list.
unfoldable pub kill_node : ℕ → State → Option (List ℕ) → Option (Tid × State)
kill_node i s none = none
kill_node i s (some l) =
    let t = thread_of s i in
    let freed : State = set_thread s i (record t { stack = false }) in
    some (tid i, record freed { ready_list = l })

unfoldable pub kill_ready : Tid → State → Option (Tid × State)
unfolding delete_node kill_node
kill_ready (tid i) s = kill_node i s (delete_node true i s.ready_list)
kill_ready t s = none

unfoldable pub kill_empty : Tid → Option (List ℕ) → State → Option (Tid × State)
unfolding kill_waiter
kill_empty t none s = some (thread_invalid, s)
kill_empty t (some []) s = some (thread_invalid, s)
kill_empty t (some (j ∷ q)) s = some (kill_waiter t (j ∷ q) s)

unfoldable pub kill_found : Tid → Option (List ℕ) → State → Option (Tid × State)
unfolding kill_waiter kill_ready
kill_found t none s = kill_ready t s
kill_found t (some q) s = some (kill_waiter t q s)

unfoldable pub kill_in : Tid → List ℕ → Option (List ℕ) → State → Option (Tid × State)
unfolding kill_empty kill_found in_list
kill_in t [] wqt s = kill_empty t wqt s
kill_in t (i ∷ l) wqt s = if in_list t (i ∷ l) then kill_found t wqt (mark_killed t s) else none

-- The search runs off the end of a list that has other threads only.
unfoldable pub thread_kill : Tid → State → Option (Tid × State)
unfolding kill_in
thread_kill t s = kill_in t s.ready_list (s.queues (of_thread s.current)) s
