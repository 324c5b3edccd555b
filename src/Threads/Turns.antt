-- ===== src/Threads/Turns.antt =====
-- thread_yield(THREAD_ANY) of threads/thread.c as round robin.
use ece334operating_system.Prelude.{
  ℕ, zero, suc, ◌+◌, ◌≡◌, refl, false, Option, some, List, [], ◌∷◌, ◌++◌, ◌>>=◌, arith, inl, inr,
  ◌∙◌, ap, eq→==,
}
use mathlib.Core.List.{append_assoc}
use ece334operating_system.Threads.{thread_any, switched, State, make_ready, switch_to, pushback_rl}
use ece334operating_system.Threads.Yield.{chosen, choose, choose_any, remove, thread_yield}
use ece334operating_system.Threads.Lists.{pushback_rl-eq, pushback_rl-cons}
use ece334operating_system.Threads.Inv.{Inv}
use ece334operating_system.Threads.Rotate.{
  noted, noted-Alike, rotated, rotate, rotate-Inv, thread_yield-rotate,
}

-- The number of threads in a list.
abbrev pub length : List ℕ → ℕ
length [] = 0
length (i ∷ l) = length l + 1

remove-head : (i : ℕ) (l : List ℕ) → remove i (i ∷ l) ≡ l
unfolding remove
remove-head i l = rw (eq→== i i refl) refl

rotated-head :
    (s : State) (i : ℕ) (rest : List ℕ)
    → s.ready_list ≡ i ∷ rest
    → rotated i (noted i s) ≡ rest ++ (s.current ∷ [])
rotated-head s i rest r =
    let a = noted-Alike i s in
    ap (λ l. remove i (pushback_rl l (noted i s).current)) (a.ready_eq ∙ r)
    ∙ ap (λ c. remove i (pushback_rl (i ∷ rest) c)) a.current_eq
    ∙ ap (remove i) (pushback_rl-cons i rest s.current)
    ∙ remove-head i (pushback_rl rest s.current)
    ∙ pushback_rl-eq rest s.current

rotate-fields :
    (i : ℕ) (s : State)
    → ((rotate i s).current ≡ i)
      × ((rotate i s).ready_list ≡ rotated i (noted i s))
      × ((rotate i s).queues ≡ s.queues)
unfolding switch_to make_ready
rotate-fields i s = (refl, refl, (noted-Alike i s).queues_eq)

-- The first ready thread runs, and the caller goes behind the others.
abbrev TakesTurn : State → ℕ → ℕ → List ℕ → Type 0
TakesTurn s k i rest =
    (s' : State) × ((thread_yield (suc k) thread_any s ≡ some (switched, s'))
      × (s'.current ≡ i)
      × (s'.ready_list ≡ rest ++ (s.current ∷ []))
      × (s'.queues ≡ s.queues)
      × Inv s')

-- Where the invariant holds and the ready list starts with a thread, thread_yield(THREAD_ANY) switches to
-- that thread whatever the fuel; the caller goes to the end of the list, and the other ready threads and
-- the wait queues stay as they are. The invariant holds afterwards.
thread_yield-turn :
    (s : State) (k i : ℕ) (rest : List ℕ) → Inv s → s.ready_list ≡ i ∷ rest → TakesTurn s k i rest
unfolding choose choose_any
thread_yield-turn s k i rest v r =
    let c : choose thread_any s ≡ chosen false i = ap choose_any r in
    let f = rotate-fields i s in
    (
      rotate i s,
      (
        thread_yield-rotate k thread_any false i v c,
        f.0,
        f.1 ∙ rotated-head s i rest r,
        f.2,
        rotate-Inv false i v (inr (inl (rest, r))),
      ),
    )

-- A number of calls of thread_yield(THREAD_ANY), each by the thread that the one before switched to.
unfoldable pub turns : ℕ → State → Option State
turns zero s = some s
turns (suc n) s = thread_yield 1 thread_any s >>= λ r. turns n r.1

turns-step :
    (s s' : State) (n : ℕ)
    → thread_yield 1 thread_any s ≡ some (switched, s')
    → turns (n + 1) s ≡ turns n s'
unfolding turns
turns-step s s' n e = ap (λ m. turns m s) m ∙ ap (λ o. o >>= λ r. turns n r.1) e
  where
    m : n + 1 ≡ suc n
    m = omega arith

-- Thread `i` runs after all of `xs`.
abbrev pub GetsTurn : List ℕ → ℕ → List ℕ → State → Type 0
GetsTurn xs i ys s =
    (s' : State) × ((turns (length xs + 1) s ≡ some s')
      × (s'.current ≡ i)
      × (s'.ready_list ≡ ys ++ (s.current ∷ xs))
      × Inv s')

-- No ready thread starves: from a state where the invariant holds, the thread with n others before it in
-- the ready list runs after n + 1 calls of thread_yield(THREAD_ANY), which all succeed. The threads that
-- ran in the meantime are then at the end of the list, in order.
pub turns-liveness :
    (xs : List ℕ) (i : ℕ) (ys : List ℕ) (s : State)
    → Inv s
    → s.ready_list ≡ xs ++ (i ∷ ys)
    → GetsTurn xs i ys s
unfolding turns
turns-liveness [] i ys s v r =
    let t = thread_yield-turn s 0 i ys v r in (t.0, (turns-step s t.0 0 t.1.0, t.1.1, t.1.2, t.1.4))
turns-liveness (x ∷ xs) i ys s v r =
    let t = thread_yield-turn s 0 x (xs ++ (i ∷ ys)) v r in
    let l : t.0.ready_list ≡ xs ++ (i ∷ (ys ++ (s.current ∷ []))) =
      t.1.2 ∙ append_assoc xs (i ∷ ys) (s.current ∷ []) in
    let u = turns-liveness xs i (ys ++ (s.current ∷ [])) t.0 t.1.4 l in
    (
      u.0,
      (
        turns-step s t.0 (length xs + 1) t.1.0 ∙ u.1.0,
        u.1.1,
        u.1.2
            ∙ ap (λ c. (ys ++ (s.current ∷ [])) ++ (c ∷ xs)) t.1.1
            ∙ append_assoc ys (s.current ∷ []) (x ∷ xs),
        u.1.3,
      ),
    )
