-- ===== src/Threads.antt =====
-- threads/thread.c: the state of the thread library. A thread is its index in TotalList, and a linked
-- list of threads is the list of these. A context that getcontext saves is the place in the library where
-- the thread goes on; what the threads compute between their calls is left out.
pub mod Queue
pub mod Yield
pub mod Sync
pub mod Lists
pub mod Inv
pub mod Wakeup
pub mod Sleep
pub mod Create
pub mod Rotate
pub mod Exit
pub mod Locks
pub mod Steps
pub mod Turns
pub mod Stuck
pub mod Outcomes
pub mod Endings
use ece334operating_system.Prelude.{
  ℕ, ◌+◌, Bool, true, false, Option, none, some, List, [], ◌∷◌, ◌==◌, if◌then◌else◌, update,
}

abbrev pub thread_max_threads : ℕ
thread_max_threads = 1024

-- A thread, or one of the negative codes of thread.h.
pub data Tid : Type 0 where
  tid : ℕ → Tid
  thread_any thread_self thread_invalid thread_none thread_nomore thread_nomemory : Tid

-- the field `status` of a thread, 0 to 3
pub data Status : Type 0 where
  ready running exited suspended : Status

-- The function of this file that called thread_sleep, and what it does after it.
pub data Caller : Type 0 where
  sleeping : Caller
  waits_for : ℕ → Caller
  acquires : ℕ → Caller

-- Where a thread goes on: in thread_stub, after the setcontext of thread_yield, or after that of
-- thread_sleep, with the thread that ran next. The flag is the variable `enabled` of the call.
pub data Context : Type 0 where
  entry : Context
  in_yield : Bool → Context
  in_sleep : ℕ → Caller → Bool → Context

-- A wait queue on the heap, named by the pointer to it: the one that wait_queue_create makes, `wqt` of
-- a thread, `wqL` of a lock, `wqC` of a condition variable.
pub data QueueRef : Type 0 where
  user of_thread of_lock of_cv : ℕ → QueueRef

abbrev pub same_ref : QueueRef → QueueRef → Bool
same_ref (user a) (user b) = a == b
same_ref (of_thread a) (of_thread b) = a == b
same_ref (of_lock a) (of_lock b) = a == b
same_ref (of_cv a) (of_cv b) = a == b
same_ref _ _ = false

-- struct thread; `stack` says whether there is one.
pub record Thread : Type 0 where
  pub context : Context
  pub status : Status
  pub next_thread_id : Tid
  pub pre_thread_id : Tid
  pub stack : Bool
  pub exist : Bool

-- struct lock
pub record Lock : Type 0 where
  pub available : Bool
  pub acquired_id : Tid

-- The globals of thread.c and interrupt.c, and the objects on the heap: the wait queues, where `none` is
-- NULL, and the locks. A condition variable is its queue.
pub record State : Type 0 where
  pub current : ℕ
  pub total_list : ℕ → Thread
  pub ready_list : List ℕ
  pub enabled : Bool
  pub queues : QueueRef → Option (List ℕ)
  pub locks : ℕ → Option Lock

abbrev pub thread_of : State → ℕ → Thread
thread_of s i = s.total_list i

abbrev pub set_queue : State → QueueRef → Option (List ℕ) → State
set_queue s q l = record s { queues = λ r. if same_ref q r then l else s.queues r }

abbrev pub set_thread : State → ℕ → Thread → State
set_thread s i t = record s { total_list = update s.total_list i t }

-- an element of TotalList before it is used
abbrev pub no_thread : Thread
no_thread = record {
  context = entry;
  status = ready;
  next_thread_id = tid 0;
  pre_thread_id = tid 0;
  stack = false;
  exist = false;
}

-- What thread_init makes, with interrupts as the flag says.
unfoldable pub thread_init : Bool → State
thread_init enabled = record {
  current = 0;
  total_list =
      update (λ i. no_thread) 0
        (record {
          context = in_yield enabled;
          status = running;
          next_thread_id = thread_invalid;
          pre_thread_id = thread_invalid;
          stack = false;
          exist = true;
        });
  ready_list = [];
  enabled = enabled;
  queues = λ q. none;
  locks = λ l. none;
}

abbrev pub thread_id : State → ℕ
thread_id s = s.current

-- How a call ends for the thread that makes it: with a result, with none, in another thread, in
-- thread_stub, or never, since it spins with interrupts off.
pub data Outcome : Type 0 where
  returns : Tid → Outcome
  done switched starts spins : Outcome

-- `enabled` as the thread finds it that goes on
abbrev pub context_enabled : Context → Bool
context_enabled entry = true
context_enabled (in_yield enabled) = enabled
context_enabled (in_sleep next caller enabled) = enabled

-- setcontext to thread `n`, which runs now
unfoldable pub switch_to : ℕ → State → State
switch_to n s =
    let t = thread_of s n in
    record s {
      current = n;
      total_list = update s.total_list n (record t { status = running });
      enabled = context_enabled t.context;
    }

unfoldable pub pushback_rl : List ℕ → ℕ → List ℕ
pushback_rl [] i = i ∷ []
pushback_rl (j ∷ l) i = j ∷ pushback_rl l i

-- A thread goes to the end of the ready list.
unfoldable pub make_ready : ℕ → State → State
make_ready i s =
    let t = thread_of s i in
    record s {
      total_list = update s.total_list i (record t { status = ready });
      ready_list = pushback_rl s.ready_list i;
    }
