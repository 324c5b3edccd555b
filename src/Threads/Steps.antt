-- ===== src/Threads/Steps.antt =====
-- The calls of threads/thread.c as steps: the current thread makes any of them at any time, and goes on
-- after a switch.
use ece334operating_system.Prelude.{ℕ, ◌≡◌, Bool, Option, none, some, arith}
use ece334operating_system.Threads.{Tid, sleeping, QueueRef, of_thread, State, Outcome, thread_init}
use ece334operating_system.Threads.Queue.{
  thread_sleep, thread_wakeup, wait_queue_create, wait_queue_destroy,
}
use ece334operating_system.Threads.Yield.{
  elem, thread_create, thread_yield, thread_exit, thread_kill,
}
use ece334operating_system.Threads.Sync.{
  thread_wait, lock_create, lock_destroy, lock_acquire, lock_release, cv_create, cv_destroy,
  cv_wait, cv_signal, cv_broadcast, resume,
}
use ece334operating_system.Threads.Inv.{AllInv, EndsInv, Inv}
use ece334operating_system.Threads.Wakeup.{thread_wakeup-Inv}
use ece334operating_system.Threads.Sleep.{thread_sleep-Inv, thread_wait-Inv}
use ece334operating_system.Threads.Create.{thread_create-Inv, thread_kill-Inv}
use ece334operating_system.Threads.Rotate.{thread_yield-Inv}
use ece334operating_system.Threads.Exit.{thread_exit-Inv}
use ece334operating_system.Threads.Locks.{
  wait_queue_create-Inv, wait_queue_destroy-Inv, lock_create-Inv, lock_destroy-Inv,
  lock_acquire-Inv, lock_release-Inv, cv_create-Inv, cv_destroy-Inv, cv_wait-Inv, cv_signal-Inv,
  cv_broadcast-Inv, resume-Inv,
}

-- A call, or the rest of one, by the thread that runs. Who calls thread_kill has no wait queue.
pub data Step : State → State → Type 0 where
  creates : (s : State) (stack : Bool) → Step s (thread_create stack s).1
  yields :
      (s : State) (k : ℕ) (t : Tid) (r : Outcome × State) → thread_yield k t s ≡ some r → Step s r.1
  exits : (s : State) (k : ℕ) (r : Outcome × State) → thread_exit k s ≡ some r → Step s r.1
  kills :
      (s : State) (t : Tid) (r : Tid × State)
      → s.queues (of_thread s.current) ≡ none
      → thread_kill t s ≡ some r
      → Step s r.1
  sleeps : (s : State) (q : QueueRef) → Step s (thread_sleep sleeping q s).1
  wakes : (s : State) (q : QueueRef) (all : ℕ) → Step s (thread_wakeup q all s).1
  awaits : (s : State) (t : Tid) (r : Outcome × State) → thread_wait t s ≡ some r → Step s r.1
  makes_queue : (s : State) (q : ℕ) → Step s (wait_queue_create q s)
  frees_queue : (s s' : State) (q : ℕ) → wait_queue_destroy q s ≡ some s' → Step s s'
  makes_lock : (s : State) (l : ℕ) → Step s (lock_create l s)
  frees_lock : (s s' : State) (l : ℕ) → lock_destroy l s ≡ some s' → Step s s'
  locks : (s : State) (l : ℕ) (r : Outcome × State) → lock_acquire l s ≡ some r → Step s r.1
  unlocks : (s s' : State) (l : ℕ) → lock_release l s ≡ some s' → Step s s'
  makes_cv : (s : State) (c : ℕ) → Step s (cv_create c s)
  frees_cv : (s s' : State) (c : ℕ) → cv_destroy c s ≡ some s' → Step s s'
  waits_cv : (s : State) (c l : ℕ) (r : Outcome × State) → cv_wait c l s ≡ some r → Step s r.1
  signals : (s s' : State) (c l : ℕ) → cv_signal c l s ≡ some s' → Step s s'
  broadcasts : (s s' : State) (c l : ℕ) → cv_broadcast c l s ≡ some s' → Step s s'
  goes_on : (s : State) (r : Outcome × State) → resume s ≡ some r → Step s r.1

-- The states that calls lead to from thread_init.
pub data Reach (enabled : Bool) : State → Type 0 where
  begin : Reach enabled (thread_init enabled)
  next : {s s' : State} → Reach enabled s → Step s s' → Reach enabled s'

of_result : (o : Option (Outcome × State)) (r : Outcome × State) → AllInv o → o ≡ some r → Inv r.1
of_result o r v e = rw e at v

of_state : (o : Option State) (s : State) → EndsInv o → o ≡ some s → Inv s
of_state o s v e = rw e at v

Step-Inv : {s s' : State} → Step s s' → Inv s → Inv s'
Step-Inv (creates s stack) v = thread_create-Inv stack v
Step-Inv (yields s k t r e) v = of_result (thread_yield k t s) r (thread_yield-Inv k t v) e
Step-Inv (exits s k r e) v = of_result (thread_exit k s) r (thread_exit-Inv k v) e
Step-Inv (kills s t r q e) v = let w : AllInv (thread_kill t s) = thread_kill-Inv t q v in rw e at w
Step-Inv (sleeps s q) v = thread_sleep-Inv sleeping q v
Step-Inv (wakes s q all) v = thread_wakeup-Inv q all v
Step-Inv (awaits s t r e) v = of_result (thread_wait t s) r (thread_wait-Inv t v) e
Step-Inv (makes_queue s q) v = wait_queue_create-Inv q v
Step-Inv (frees_queue s s' q e) v =
    of_state (wait_queue_destroy q s) s' (wait_queue_destroy-Inv q v) e
Step-Inv (makes_lock s l) v = lock_create-Inv l v
Step-Inv (frees_lock s s' l e) v = of_state (lock_destroy l s) s' (lock_destroy-Inv l v) e
Step-Inv (locks s l r e) v = of_result (lock_acquire l s) r (lock_acquire-Inv l v) e
Step-Inv (unlocks s s' l e) v = of_state (lock_release l s) s' (lock_release-Inv l v) e
Step-Inv (makes_cv s c) v = cv_create-Inv c v
Step-Inv (frees_cv s s' c e) v = of_state (cv_destroy c s) s' (cv_destroy-Inv c v) e
Step-Inv (waits_cv s c l r e) v = of_result (cv_wait c l s) r (cv_wait-Inv c l v) e
Step-Inv (signals s s' c l e) v = of_state (cv_signal c l s) s' (cv_signal-Inv c l v) e
Step-Inv (broadcasts s s' c l e) v = of_state (cv_broadcast c l s) s' (cv_broadcast-Inv c l v) e
Step-Inv (goes_on s r e) v = of_result (resume s) r (resume-Inv v) e

thread_init-Inv : (enabled : Bool) → Inv (thread_init enabled)
unfolding thread_init elem
thread_init-Inv enabled = record {
  runs = ground arith;
  alone = λ i h. ground arith;
  listed = record {
    readies = λ i h. ground arith;
    waits = λ q i h. ground arith;
    ready_once = tt;
    wait_once = λ q. tt;
    apart = λ q r i h k. ground arith;
  };
}

-- In every state that calls lead to from thread_init, where no thread calls thread_kill while others wait
-- for it: the current thread exists, runs, and is the only one that does; the ready list holds ready
-- threads and the wait queues suspended ones, all of them existing and below 1024; and no thread stands
-- twice in a list or in two of them.
pub Reach-Inv : (enabled : Bool) (s : State) → Reach enabled s → Inv s
Reach-Inv enabled s begin = thread_init-Inv enabled
Reach-Inv enabled s (next r step) = Step-Inv step (Reach-Inv enabled _ r)
