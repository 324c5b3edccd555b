-- ===== src/Threads/Outcomes.antt =====
-- What thread_wakeup, thread_sleep and thread_create of threads/thread.c do on each branch.
use ece334operating_system.Prelude.{
  ℕ, ◌+◌, ◌<◌, ◌≤◌, ◌≡◌, refl, Bool, true, false, none, some, List, [], ◌∷◌, ◌++◌, if◌then◌else◌,
  arith, ◌⊎◌, inl, inr, ◌∙◌, ap, sym, Option-cases, eq→==,
}
use mathlib.Core.List.{append_assoc, append-nil}
use ece334operating_system.Threads.{
  tid, thread_nomore, Caller, ready, suspended, switched, QueueRef, same_ref, State, thread_of,
  set_queue, make_ready, switch_to,
}
use ece334operating_system.Threads.Queue.{
  block_on, sleep_in, sleep_on, thread_sleep, wake_all, wake_in, wake_on, thread_wakeup,
}
use ece334operating_system.Threads.Yield.{elem, find_unused, new_thread, create_at, thread_create}
use ece334operating_system.Threads.Lists.{elem-cons, pushback_wq-eq, pushback_rl-eq}
use ece334operating_system.Threads.Turns.{length}
use ece334operating_system.Threads.Inv.{Inv, same_ref_refl}
use ece334operating_system.Threads.Create.{Finds, find_unused-Finds}

-- The threads `l` became ready, in order, and nothing else has changed but for the wait queues.
pub record Woken (l : List ℕ) (s s' : State) : Type 0 where
  pub current_eq : s'.current ≡ s.current
  pub ready_eq : s'.ready_list ≡ s.ready_list ++ l
  pub thread_eq :
      (i : ℕ)
      → thread_of s' i
        ≡ (if elem i l then record (thread_of s i) { status = ready } else thread_of s i)

pub wake_all-Woken :
    (l : List ℕ) (s : State)
    → ((wake_all l s).0 ≡ length l)
      × ((wake_all l s).1.queues ≡ s.queues)
      × Woken l s (wake_all l s).1
unfolding wake_all make_ready elem
wake_all-Woken [] s = (
  refl,
  refl,
  record { current_eq = refl; ready_eq = sym (append-nil s.ready_list); thread_eq = λ i. refl },
)
wake_all-Woken (i ∷ l) s =
    let r = wake_all-Woken l (make_ready i s) in
    (
      ap (λ n. n + 1) r.0,
      r.1,
      record {
        current_eq = r.2.current_eq;
        ready_eq =
            r.2.ready_eq
            ∙ ap (λ m. m ++ l) (pushback_rl-eq s.ready_list i)
            ∙ append_assoc s.ready_list (i ∷ []) l;
        thread_eq = λ j. r.2.thread_eq j ∙ ground arith;
      },
    )

-- thread_wakeup(queue, 1) returns the length of the queue, empties it, and puts its threads at the end of
-- the ready list in the order in which they stood; no other thread and no other queue changes.
pub thread_wakeup-Woken :
    (q : QueueRef) (l : List ℕ) (s : State)
    → s.queues q ≡ some l
    → ((thread_wakeup q 1 s).0 ≡ length l)
      × ((thread_wakeup q 1 s).1.queues q ≡ some [])
      × ((p : QueueRef) → same_ref q p ≡ false → (thread_wakeup q 1 s).1.queues p ≡ s.queues p)
      × Woken l s (thread_wakeup q 1 s).1
unfolding thread_wakeup wake_on wake_in elem
thread_wakeup-Woken q [] s e = rw e (
  refl,
  e,
  λ p h. refl,
  record { current_eq = refl; ready_eq = sym (append-nil s.ready_list); thread_eq = λ i. refl },
)
thread_wakeup-Woken q (i ∷ l) s e =
    let r = wake_all-Woken (i ∷ l) (set_queue s q (some [])) in
    rw e (
      r.0,
      ap (λ f. f q) r.1 ∙ rw (same_ref_refl q) refl,
      λ p h. ap (λ f. f p) r.1 ∙ rw h refl,
      record { current_eq = r.2.current_eq; ready_eq = r.2.ready_eq; thread_eq = r.2.thread_eq },
    )

pub block_on-queue :
    (caller : Caller) (q : QueueRef) (l : List ℕ) (next : ℕ) (rest : List ℕ) (s : State)
    → (block_on caller q l next rest s).queues q ≡ some (l ++ (s.current ∷ []))
unfolding block_on switch_to
block_on-queue caller q l next rest s =
    rw (same_ref_refl q) (ap some (pushback_wq-eq l s.current ∙ pushback_rl-eq l s.current))

block_on-fields :
    (caller : Caller) (q : QueueRef) (l : List ℕ) (next : ℕ) (rest : List ℕ) (s : State)
    → Inv s
    → s.ready_list ≡ next ∷ rest
    → ((block_on caller q l next rest s).current ≡ next)
      × ((block_on caller q l next rest s).ready_list ≡ rest)
      × ((block_on caller q l next rest s).queues q ≡ some (l ++ (s.current ∷ [])))
      × ((thread_of (block_on caller q l next rest s) s.current).status ≡ suspended)
unfolding block_on switch_to
block_on-fields caller q l next rest s v r =
    let head : elem next s.ready_list ≡ true =
      ap (elem next) r ∙ elem-cons next next rest ∙ ground arith in
    let st = v.listed.readies next head in
    (refl, refl, block_on-queue caller q l next rest s, ground (arith, v.runs))

-- The caller sleeps behind `l`.
abbrev pub WakesLast : Caller → QueueRef → List ℕ → ℕ → List ℕ → State → Type 0
WakesLast caller q l next rest s =
    (s' : State) × ((thread_sleep caller q s ≡ (switched, s'))
      × (s'.current ≡ next)
      × ((thread_of s' s.current).status ≡ suspended)
      × ((thread_wakeup q 1 s').0 ≡ length (l ++ (s.current ∷ [])))
      × Woken (l ++ (s.current ∷ [])) s' (thread_wakeup q 1 s').1
      × ((thread_wakeup q 1 s').1.ready_list ≡ rest ++ (l ++ (s.current ∷ []))))

-- A thread that sleeps is the last that its queue wakes: where the queue holds `l` and the ready list starts
-- with a thread, thread_sleep suspends the caller and switches to that thread, and thread_wakeup(queue, 1)
-- from there wakes the threads of `l` first and the caller after them.
pub thread_sleep-wakeup :
    (caller : Caller) (q : QueueRef) (l : List ℕ) (next : ℕ) (rest : List ℕ) (s : State)
    → Inv s
    → s.queues q ≡ some l
    → s.ready_list ≡ next ∷ rest
    → WakesLast caller q l next rest s
unfolding thread_sleep sleep_on sleep_in
thread_sleep-wakeup caller q l next rest s v e r =
    let s' = block_on caller q l next rest s in
    let b = block_on-fields caller q l next rest s v r in
    let w = thread_wakeup-Woken q (l ++ (s.current ∷ [])) s' b.2 in
    (
      s',
      (
        ap (λ o. sleep_on caller q o s) e ∙ ap (λ k. sleep_in caller q l k s) r,
        b.0,
        b.3,
        w.0,
        w.3,
        w.3.ready_eq ∙ ap (λ k. k ++ (l ++ (s.current ∷ []))) b.1,
      ),
    )

-- The lowest unused thread is made, or there is none.
abbrev pub Creates : State → Type 0
Creates s =
    ((i : ℕ) × (1 ≤ i)
      × (i < 1024)
      × ((thread_of s i).exist ≡ false)
      × ((j : ℕ) → 1 ≤ j → j < i → (thread_of s j).exist ≡ true)
      × ((thread_create true s).0 ≡ tid i)
      × ((thread_create true s).1.ready_list ≡ s.ready_list ++ (i ∷ []))
      × (thread_of (thread_create true s).1 i ≡ new_thread true)
      × ((thread_create true s).1.enabled ≡ s.enabled))
    ⊎ (((j : ℕ) → 1 ≤ j → j < 1024 → (thread_of s j).exist ≡ true)
        × ((stack : Bool) → thread_create stack s ≡ (thread_nomore, record s { enabled = false })))

-- thread_create takes the lowest unused element from 1 on: where there is one and the stack can be allocated,
-- its thread exists, is ready, starts in thread_stub and stands at the end of the ready list; interrupts are
-- as before. Where all of 1 to 1023 are in use, it returns THREAD_NOMORE with interrupts off, and the rest
-- of the state is as it was.
pub thread_create_lem : (s : State) → Creates s
unfolding thread_create create_at make_ready
thread_create_lem s = elim (Option-cases (find_unused 1024 1 s.total_list)) [
  | inl e ↦
      let f : Finds 1024 1 s.total_list none =
        rw e at (find_unused-Finds 1024 1 s.total_list (omega arith)) in
      inr (λ j a b. f j a (omega arith) b, λ stack. rw e refl)
  | inr (i, e) ↦
      let f : Finds 1024 1 s.total_list (some i) =
        rw e at (find_unused-Finds 1024 1 s.total_list (omega arith)) in
      inl (
        i,
        f.0,
        f.1,
        f.2,
        f.3,
        rw e refl,
        rw e (pushback_rl-eq s.ready_list i),
        rw e (rw (eq→== i i refl) refl),
        rw e refl,
      )
]
