-- ===== src/Threads/Stuck.antt =====
-- A killed thread at the head of the ready list of threads/thread.c: thread_yield and thread_exit call
-- one another for ever.
use ece334operating_system.Prelude.{
  ℕ, zero, suc, ◌≡◌, refl, Bool, true, false, Option, none, some, List, [], ◌∷◌, arith, ◌∙◌, ap,
}
use ece334operating_system.Threads.{
  thread_any, exited, Outcome, QueueRef, of_thread, State, thread_of, set_thread, set_queue,
  make_ready, pushback_rl,
}
use ece334operating_system.Threads.Queue.{wake_all, wake_in, wake_on, thread_wakeup}
use ece334operating_system.Threads.Yield.{
  choose, choose_any, is_running, free_stacks, save_context, requeue, save_current, dispatch,
  yield_to, thread_yield, wake_waiters, after_exit, to_killed, map_result, leave, exit_by,
  thread_exit,
}
use ece334operating_system.Threads.Lists.{pushback_rl-cons}
use ece334operating_system.Threads.Rotate.{
  Alike, free_stacks-Alike, save_context-Alike, note_switch-Alike,
}

-- A thread that does not exist is first in the ready list.
pub record Blocks (i : ℕ) (s : State) : Type 0 where
  pub behind : List ℕ
  pub first : s.ready_list ≡ i ∷ behind
  pub killed : (thread_of s i).exist ≡ false

same-Blocks :
    {s : State} (i : ℕ) (s' : State)
    → Blocks i s
    → s'.ready_list ≡ s.ready_list
    → (thread_of s' i).exist ≡ (thread_of s i).exist
    → Blocks i s'
same-Blocks i s' b r e = record { behind = b.behind; first = r ∙ b.first; killed = e ∙ b.killed }

make_ready-Blocks : {s : State} (i j : ℕ) → Blocks i s → Blocks i (make_ready j s)
unfolding make_ready
make_ready-Blocks {s} i j b = record {
  behind = pushback_rl b.behind j;
  first = ap (λ l. pushback_rl l j) b.first ∙ pushback_rl-cons i b.behind j;
  killed = ground (arith, b.killed);
}

Alike-Blocks : {s s' : State} (i : ℕ) → Alike s s' → Blocks i s → Blocks i s'
Alike-Blocks {s} {s'} i a b = same-Blocks i s' b a.ready_eq (a.exist_eq i)

requeue-Blocks : (s : State) (i : ℕ) (r e : Bool) → Blocks i s → Blocks i (requeue i r e s)
unfolding requeue
requeue-Blocks s i false e b = b
requeue-Blocks s i true false b = same-Blocks i (requeue i true false s) b refl (ground arith)
requeue-Blocks s i true true b =
    make_ready-Blocks i s.current (Alike-Blocks i (note_switch-Alike i s) b)

save_current-Blocks : (s : State) (i : ℕ) → Blocks i s → Blocks i (save_current i s)
unfolding save_current
save_current-Blocks s i b =
    let t = thread_of s s.current in
    requeue-Blocks (save_context s) i (is_running t.status) t.exist
      (Alike-Blocks i (save_context-Alike s) b)

wake_all-Blocks : (l : List ℕ) {s : State} (i : ℕ) → Blocks i s → Blocks i (wake_all l s).1
unfolding wake_all
wake_all-Blocks [] i b = b
wake_all-Blocks (j ∷ l) i b = wake_all-Blocks l i (make_ready-Blocks i j b)

thread_wakeup-Blocks :
    {s : State} (i : ℕ) (q : QueueRef) → Blocks i s → Blocks i (thread_wakeup q 1 s).1
unfolding thread_wakeup wake_on wake_in
thread_wakeup-Blocks {s} i q b = go (s.queues q)
  where
    go : (o : Option (List ℕ)) → Blocks i (wake_on q o 1 s).1
    go none = b
    go (some []) = b
    go (some (j ∷ l)) =
        wake_all-Blocks (j ∷ l) i (same-Blocks i (set_queue s q (some [])) b refl refl)

wake_waiters-Blocks :
    {s : State} (i : ℕ) (o : Option (List ℕ)) → Blocks i s → Blocks i (wake_waiters s o)
unfolding wake_waiters
wake_waiters-Blocks i none b = b
wake_waiters-Blocks {s} i (some q) b =
    same-Blocks i (wake_waiters s (some q)) (thread_wakeup-Blocks i (of_thread s.current) b) refl
      refl

leave-stuck :
    (i : ℕ) (f : State → Option (Outcome × State)) (s : State)
    → ((t : State) → Blocks i t → f t ≡ none)
    → (l : List ℕ) → Blocks i s
    → s.ready_list ≡ l
    → leave f l s ≡ none
unfolding leave
leave-stuck i f s h [] b r = ground (arith, b.first)
leave-stuck i f s h (j ∷ l) b r =
    ap (λ o. map_result after_exit o)
      (h
        (set_thread s s.current (record (thread_of s s.current) { exist = false; status = exited }))
        (record { behind = b.behind; first = b.first; killed = ground (arith, b.killed) }))

exit_by-stuck :
    (i : ℕ) (f : State → Option (Outcome × State)) (s : State)
    → ((t : State) → Blocks i t → f t ≡ none)
    → Blocks i s
    → exit_by f s ≡ none
unfolding exit_by
exit_by-stuck i f s h b =
    let s1 = wake_waiters s (s.queues (of_thread s.current)) in
    leave-stuck i f s1 h s1.ready_list (wake_waiters-Blocks i (s.queues (of_thread s.current)) b)
      refl

thread_yield-stuck : (k i : ℕ) (s : State) → Blocks i s → thread_yield k thread_any s ≡ none
unfolding thread_yield yield_to choose choose_any dispatch
thread_yield-stuck zero i s b = refl
thread_yield-stuck (suc k) i s b =
    let f : State → Option (Outcome × State) = λ s. thread_yield k thread_any s in
    let s1 = save_current i (free_stacks s) in
    let c = save_current-Blocks (free_stacks s) i (Alike-Blocks i (free_stacks-Alike s) b) in
    ap (λ l. yield_to f (choose_any l) s) b.first
    ∙ ap (λ e. dispatch false f i e s1) c.killed
    ∙ ap (λ o. map_result (to_killed i) o)
        (exit_by-stuck i f (record s1 { current = i }) (thread_yield-stuck k i)
          (same-Blocks i (record s1 { current = i }) c refl refl))

-- Where a killed thread is first in the ready list, neither thread_yield(THREAD_ANY) nor thread_exit ends,
-- whatever the fuel.
pub thread_exit-stuck :
    (k i : ℕ) (s : State)
    → Blocks i s
    → (thread_yield k thread_any s ≡ none) × (thread_exit k s ≡ none)
unfolding thread_exit
thread_exit-stuck k i s b = (
  thread_yield-stuck k i s b,
  exit_by-stuck i (λ s. thread_yield k thread_any s) s (thread_yield-stuck k i) b,
)
