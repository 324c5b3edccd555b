-- ===== src/Threads/Exit.antt =====
-- thread_exit of threads/thread.c: the switch it makes, for every fuel, and the invariant.
use ece334operating_system.Prelude.{
  ℕ, zero, suc, ◌≡◌, ◌≢◌, refl, true, false, Option, none, some, List, [], ◌∷◌, ◌==◌, arith, inl,
  inr, ◌∙◌, ap, sym, Bool-cases, eq→==, ne→==,
}
use ece334operating_system.Threads.{
  thread_any, ready, running, exited, Outcome, switched, QueueRef, of_thread, State, thread_of,
  set_thread, switch_to,
}
use ece334operating_system.Threads.Yield.{
  elem, choose_any, choose, is_running, free_stacks, requeue, save_current, save_context,
  delete_node, dispatch, yield_to, thread_yield, wake_waiters, after_exit, leave, exit_by,
  thread_exit,
}
use ece334operating_system.Threads.Lists.{NoDup, elem-cons, elem-nil, delete_node-head}
use ece334operating_system.Threads.Inv.{
  members, waiting, IsIn, AllInv, Listed, Inv, set_queue-Inv, set_ready-Listed, set_thread-Listed,
  current-Unlisted, switch_to-Inv,
}
use ece334operating_system.Threads.Wakeup.{thread_wakeup-Inv}
use ece334operating_system.Threads.Rotate.{
  Alike, Alike-compose, Alike-IsIn, Alike-Listed, free_stacks-Alike, save_context-Alike,
  dispatch-eq,
}

-- The caller of thread_exit, dead.
abbrev pub dead : State → State
dead s =
    let t = thread_of s s.current in
    set_thread s s.current (record t { exist = false; status = exited })

-- No thread runs.
abbrev NoneRuns : State → Type 0
NoneRuns s = (i : ℕ) → (thread_of s i).status ≢ running

dead-NoneRuns : {s : State} → Inv s → NoneRuns (dead s)
dead-NoneRuns {s} v i h = ground (arith, v.alone i)

-- A dead thread leaves no trace in the ready list.
save_current-exited :
    (s : State) (next : ℕ)
    → (thread_of s s.current).status ≡ exited
    → save_current next s ≡ save_context s
unfolding save_current requeue
save_current-exited s next a =
    let t = thread_of s s.current in
    ap (λ st. requeue next (is_running st) t.exist (save_context s)) a

-- The state of a dead caller at the switch.
abbrev left : State → State
left s = save_context (free_stacks (dead s))

left-Alike : (s : State) → Alike (dead s) (left s)
left-Alike s =
    Alike-compose (free_stacks-Alike (dead s)) (save_context-Alike (free_stacks (dead s)))

-- The first ready thread runs after a dead one.
abbrev pub succeed : ℕ → List ℕ → State → State
succeed next rest s = switch_to next (record (left s) { ready_list = rest })

head-IsIn :
    {s : State} (next : ℕ) (rest : List ℕ)
    → Inv s
    → s.ready_list ≡ next ∷ rest
    → IsIn (left s) next ready
head-IsIn {s} next rest v r =
    let h : elem next s.ready_list ≡ true =
      ap (λ l. elem next l) r ∙ elem-cons next next rest ∙ ground arith in
    let l =
      set_thread-Listed s.current
        (record (thread_of s s.current) { exist = false; status = exited }) v.listed
        (current-Unlisted v) in
    Alike-IsIn next ready (left-Alike s) (l.readies next h)

dead_saved :
    (s : State) (next : ℕ)
    → (thread_of (free_stacks (dead s)) s.current).status ≡ exited
    → save_current next (free_stacks (dead s)) ≡ left s
unfolding free_stacks
dead_saved s next e = save_current-exited (free_stacks (dead s)) next e

pub thread_yield-dead :
    {s : State} (k next : ℕ) (rest : List ℕ)
    → Inv s
    → s.ready_list ≡ next ∷ rest
    → thread_yield (suc k) thread_any (dead s) ≡ some (switched, succeed next rest s)
unfolding thread_yield yield_to choose choose_any
thread_yield-dead {s} k next rest v r =
    let f : State → Option (Outcome × State) = λ s. thread_yield k thread_any s in
    let st = head-IsIn next rest v r in
    let e : (thread_of (free_stacks (dead s)) s.current).status ≡ exited =
      (free_stacks-Alike (dead s)).status_eq s.current ∙ ground arith in
    ap (λ l. yield_to f (choose_any l) (dead s)) r
    ∙ ap (λ t. dispatch false f next (thread_of t next).exist t) (dead_saved s next e)
    ∙ dispatch-eq (left s) false f next rest st.1 st.2 (
        ap (λ l. delete_node false next l) ((left-Alike s).ready_eq ∙ r)
        ∙ delete_node-head false next rest)

pub succeed-Inv :
    {s : State} (next : ℕ) (rest : List ℕ)
    → Inv s
    → s.ready_list ≡ next ∷ rest
    → Inv (succeed next rest s)
succeed-Inv {s} next rest v r =
    let a = left-Alike s in
    let st = head-IsIn next rest v r in
    let d : NoDup (next ∷ rest) = rw r at v.listed.ready_once in
    let all : Listed (left s) = Alike-Listed a (
      set_thread-Listed s.current
        (record (thread_of s s.current) { exist = false; status = exited }) v.listed
        (current-Unlisted v)) in
    switch_to-Inv next
      (set_ready-Listed rest all
        (λ i h. ap (λ l. elem i l) (a.ready_eq ∙ r) ∙ elem-cons i next rest ∙ ground (arith, h))
        d.1)
      (record {
        not_ready = d.0;
        not_waiting = λ q. elim (Bool-cases (elem next (waiting (left s) q))) [
          | inl h ↦ let w = all.waits q next h in ground (arith, st)
          | inr h ↦ h
        ];
      })
      st.0 st.2 (λ j ne h. dead-NoneRuns v j (sym (a.status_eq j) ∙ h))

-- The caller of thread_exit is gone for good.
pub record Gone (i : ℕ) (s : State) : Type 0 where
  pub status_eq : (thread_of s i).status ≡ exited
  pub exist_eq : (thread_of s i).exist ≡ false
  pub not_ready : elem i s.ready_list ≡ false
  pub not_waiting : (q : QueueRef) → elem i (waiting s q) ≡ false

pub succeed-Gone :
    {s : State} (next : ℕ) (rest : List ℕ)
    → Inv s
    → s.ready_list ≡ next ∷ rest
    → Gone s.current (succeed next rest s)
unfolding switch_to
succeed-Gone {s} next rest v r =
    let a = left-Alike s in
    let out = current-Unlisted v in
    let h : elem next s.ready_list ≡ true =
      ap (λ l. elem next l) r ∙ elem-cons next next rest ∙ ground arith in
    let st = v.listed.readies next h in
    let ne : (next == s.current) ≡ false = ne→== next s.current (λ e. ground (arith, v.runs)) in
    record {
      status_eq = rw ne (a.status_eq s.current ∙ rw (eq→== s.current s.current refl) refl);
      exist_eq = rw ne (a.exist_eq s.current ∙ rw (eq→== s.current s.current refl) refl);
      not_ready =
          ground
            (arith, out.not_ready, ap (λ l. elem s.current l) r ∙ elem-cons s.current next rest);
      not_waiting = λ q. ap (λ f. elem s.current (members (f q))) a.queues_eq ∙ out.not_waiting q;
    }

pub wake_waiters-Inv : {s : State} (q : Option (List ℕ)) → Inv s → Inv (wake_waiters s q)
unfolding wake_waiters
wake_waiters-Inv none v = v
wake_waiters-Inv {s} (some q) v =
    set_queue-Inv (of_thread s.current) none (thread_wakeup-Inv (of_thread s.current) 1 v)
      (λ i h. ground (arith, elem-nil i, h)) tt

leave-Inv :
    {s : State} (k : ℕ) (l : List ℕ)
    → Inv s
    → s.ready_list ≡ l
    → AllInv (leave (λ s. thread_yield k thread_any s) l s)
unfolding leave after_exit thread_yield
leave-Inv k [] v r = v
leave-Inv zero (next ∷ rest) v r = tt
leave-Inv {s} (suc k) (next ∷ rest) v r =
    rw (AllInv, thread_yield-dead k next rest v r) (succeed-Inv next rest v r)

-- thread_exit keeps the invariant, whether another thread runs or none is left.
pub thread_exit-Inv : {s : State} (k : ℕ) → Inv s → AllInv (thread_exit k s)
unfolding thread_exit exit_by
thread_exit-Inv {s} k v =
    let w = wake_waiters-Inv (s.queues (of_thread s.current)) v in
    leave-Inv k (wake_waiters s (s.queues (of_thread s.current))).ready_list w refl
