-- ===== src/Threads/Locks.antt =====
-- The locks and condition variables of threads/thread.c: the invariant, and what a lock guarantees.
use ece334operating_system.Prelude.{
  ℕ, ◌≡◌, refl, Option, none, some, List, [], arith, inl, inr, Bool-cases,
}
use ece334operating_system.Threads.{
  sleeping, waits_for, acquires, Context, entry, in_yield, in_sleep, Outcome, returns, done,
  switched, starts, spins, QueueRef, user, of_lock, of_cv, Lock, State, thread_of, set_queue,
}
use ece334operating_system.Threads.Queue.{
  thread_sleep, wait_queue_create, destroy_queue, wait_queue_destroy,
}
use ece334operating_system.Threads.Sync.{
  lock_create, destroy_lock, lock_destroy, try_again, acquire_lock, lock_acquire, release_lock,
  lock_release, cv_create, destroy_cv, cv_destroy, holder_is, acquired_by_current, wait_result,
  wait_released, with_cv, cv_wait, notify, cv_signal, cv_broadcast, go_on_sleep, go_on, resume,
}
use ece334operating_system.Threads.Lists.{elem-nil}
use ece334operating_system.Threads.Inv.{AllInv, EndsInv, Inv, set_queue-Inv, same-Inv}
use ece334operating_system.Threads.Wakeup.{thread_wakeup-Inv}
use ece334operating_system.Threads.Sleep.{thread_sleep-Inv}

-- A queue may become empty, or NULL.
pub none-Inv : {s : State} (q : QueueRef) → Inv s → Inv (set_queue s q none)
none-Inv q v = set_queue-Inv q none v (λ i h. ground (arith, elem-nil i, h)) tt

pub empty-Inv : {s : State} (q : QueueRef) → Inv s → Inv (set_queue s q (some []))
empty-Inv q v = set_queue-Inv q (some []) v (λ i h. ground (arith, elem-nil i, h)) tt

pub wait_queue_create-Inv : {s : State} (q : ℕ) → Inv s → Inv (wait_queue_create q s)
unfolding wait_queue_create
wait_queue_create-Inv q v = empty-Inv (user q) v

destroy_queue-Inv :
    {s : State} (q : ℕ) (o : Option (List ℕ)) → Inv s → EndsInv (destroy_queue q o s)
unfolding destroy_queue
destroy_queue-Inv q none v = tt
destroy_queue-Inv q (some l) v = none-Inv (user q) v

pub wait_queue_destroy-Inv : {s : State} (q : ℕ) → Inv s → EndsInv (wait_queue_destroy q s)
unfolding wait_queue_destroy
wait_queue_destroy-Inv {s} q v = destroy_queue-Inv q (s.queues (user q)) v

pub lock_create-Inv : {s : State} (l : ℕ) → Inv s → Inv (lock_create l s)
unfolding lock_create
lock_create-Inv {s} l v = same-Inv s.enabled _ (empty-Inv (of_lock l) v)

pub cv_create-Inv : {s : State} (c : ℕ) → Inv s → Inv (cv_create c s)
unfolding cv_create
cv_create-Inv c v = empty-Inv (of_cv c) v

destroy_lock-Inv : {s : State} (l : ℕ) (o : Option Lock) → Inv s → EndsInv (destroy_lock l o s)
unfolding destroy_lock
destroy_lock-Inv l none v = tt
destroy_lock-Inv {s} l (some k) v = elim (Bool-cases k.available) [
  | inl free ↦ rw free (same-Inv s.enabled _ (none-Inv (of_lock l) v))
  | inr held ↦ rw held v
]

pub lock_destroy-Inv : {s : State} (l : ℕ) → Inv s → EndsInv (lock_destroy l s)
unfolding lock_destroy
lock_destroy-Inv {s} l v = destroy_lock-Inv l (s.locks l) v

try_again-state : (r : Outcome × State) → (try_again r).1 ≡ r.1
unfolding try_again
try_again-state (returns t, s) = refl
try_again-state (done, s) = refl
try_again-state (switched, s) = refl
try_again-state (starts, s) = refl
try_again-state (spins, s) = refl

acquire_lock-Inv : {s : State} (l : ℕ) (o : Option Lock) → Inv s → AllInv (acquire_lock l o s)
unfolding acquire_lock
acquire_lock-Inv l none v = tt
acquire_lock-Inv {s} l (some k) v = elim (Bool-cases k.available) [
  | inl free ↦ rw (AllInv, free) (same-Inv s.enabled _ v)
  | inr held ↦
      rw (AllInv, held, try_again-state (thread_sleep (acquires l) (of_lock l) s))
        (thread_sleep-Inv (acquires l) (of_lock l) v)
]

pub lock_acquire-Inv : {s : State} (l : ℕ) → Inv s → AllInv (lock_acquire l s)
unfolding lock_acquire
lock_acquire-Inv {s} l v = acquire_lock-Inv l (s.locks l) v

release_lock-Inv : {s : State} (l : ℕ) (o : Option Lock) → Inv s → EndsInv (release_lock l o s)
unfolding release_lock
release_lock-Inv l none v = tt
release_lock-Inv {s} l (some k) v = elim (Bool-cases k.available) [
  | inl free ↦ rw free v
  | inr held ↦ rw held (thread_wakeup-Inv (of_lock l) 1 (same-Inv s.enabled _ v))
]

pub lock_release-Inv : {s : State} (l : ℕ) → Inv s → EndsInv (lock_release l s)
unfolding lock_release
lock_release-Inv {s} l v = release_lock-Inv l (s.locks l) v

destroy_cv-Inv : {s : State} (c : ℕ) (o : Option (List ℕ)) → Inv s → EndsInv (destroy_cv c o s)
unfolding destroy_cv
destroy_cv-Inv c none v = tt
destroy_cv-Inv c (some q) v = none-Inv (of_cv c) v

pub cv_destroy-Inv : {s : State} (c : ℕ) → Inv s → EndsInv (cv_destroy c s)
unfolding cv_destroy
cv_destroy-Inv {s} c v = destroy_cv-Inv c (s.queues (of_cv c)) v

wait_result-Inv : (l : ℕ) (r : Outcome × State) → Inv r.1 → AllInv (wait_result l r)
unfolding wait_result
wait_result-Inv l (returns t, s) v = lock_acquire-Inv l v
wait_result-Inv l (done, s) v = v
wait_result-Inv l (switched, s) v = v
wait_result-Inv l (starts, s) v = v
wait_result-Inv l (spins, s) v = v

wait_released-Inv : (c l : ℕ) (o : Option State) → EndsInv o → AllInv (wait_released c l o)
unfolding wait_released
wait_released-Inv c l none v = tt
wait_released-Inv c l (some s) v = elim (Bool-cases (acquired_by_current l s)) [
  | inl mine ↦ rw mine (
      wait_result-Inv l (thread_sleep (acquires l) (of_cv c) s)
        (thread_sleep-Inv (acquires l) (of_cv c) v))
  | inr other ↦ rw other (lock_acquire-Inv l v)
]

with_cv-Inv : (o : Option (List ℕ)) (r : Option (Outcome × State)) → AllInv r → AllInv (with_cv o r)
unfolding with_cv
with_cv-Inv none r v = tt
with_cv-Inv (some q) r v = v

pub cv_wait-Inv : {s : State} (c l : ℕ) → Inv s → AllInv (cv_wait c l s)
unfolding cv_wait
cv_wait-Inv {s} c l v =
    with_cv-Inv (s.queues (of_cv c)) (wait_released c l (lock_release l s))
      (wait_released-Inv c l (lock_release l s) (lock_release-Inv l v))

notify-Inv :
    {s : State} (c : ℕ) (o : Option (List ℕ)) (all : ℕ) (k : Option Lock)
    → Inv s
    → EndsInv (notify c o all k s)
unfolding notify
notify-Inv c none all k v = tt
notify-Inv c (some q) all none v = tt
notify-Inv {s} c (some q) all (some k) v = elim (Bool-cases (holder_is s (some k))) [
  | inl mine ↦ rw mine (thread_wakeup-Inv (of_cv c) all v)
  | inr other ↦ rw other v
]

pub cv_signal-Inv : {s : State} (c l : ℕ) → Inv s → EndsInv (cv_signal c l s)
unfolding cv_signal
cv_signal-Inv {s} c l v = notify-Inv c (s.queues (of_cv c)) 0 (s.locks l) v

pub cv_broadcast-Inv : {s : State} (c l : ℕ) → Inv s → EndsInv (cv_broadcast c l s)
unfolding cv_broadcast
cv_broadcast-Inv {s} c l v = notify-Inv c (s.queues (of_cv c)) 1 (s.locks l) v

go_on-Inv : {s : State} (x : Context) → Inv s → AllInv (go_on x s)
unfolding go_on go_on_sleep
go_on-Inv entry v = v
go_on-Inv (in_yield e) v = v
go_on-Inv (in_sleep n sleeping e) v = v
go_on-Inv (in_sleep n (waits_for t) e) v = v
go_on-Inv (in_sleep n (acquires l) e) v = lock_acquire-Inv l v

pub resume-Inv : {s : State} → Inv s → AllInv (resume s)
unfolding resume
resume-Inv {s} v = go_on-Inv (thread_of s s.current).context v
