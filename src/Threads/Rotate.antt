-- ===== src/Threads/Rotate.antt =====
-- thread_yield of threads/thread.c: the switch it makes, for every fuel, and the invariant.
use ece334operating_system.Prelude.{
  ℕ, zero, suc, ◌≡◌, refl, Bool, true, false, ◌&&◌, Option, some, List, [], ◌∷◌, ◌==◌,
  if◌then◌else◌, arith, ◌⊎◌, inl, inr, ◌∙◌, ap, sym, Bool-cases, ==→eq,
}
use ece334operating_system.Threads.{
  Tid, tid, thread_any, thread_self, thread_invalid, thread_none, thread_nomore, thread_nomemory,
  Status, ready, running, suspended, Outcome, switched, QueueRef, State, thread_of, pushback_rl,
  make_ready, switch_to,
}
use ece334operating_system.Threads.Yield.{
  elem, Choice, chosen, refused, choose_any, choose, is_exited, is_running, free_stacks, requeue,
  save_current, save_context, note_switch, switch_with, remove, delete_node, dispatch, yield_to,
  thread_yield,
}
use ece334operating_system.Threads.Lists.{
  pushback_rl-cons, elem-cons, elem-pushback, NoDup-pushback, elem-remove, NoDup-remove,
  delete_node-remove, delete_node-head, delete_node-pushback,
}
use ece334operating_system.Threads.Inv.{
  members, waiting, IsIn, AllInv, Listed, Inv, set_ready-Listed, make_ready-Listed,
  current-Unlisted, switch_to-Inv,
}

-- States that differ in contexts, stacks and the notes of a switch only.
pub record Alike (s s' : State) : Type 0 where
  pub current_eq : s'.current ≡ s.current
  pub ready_eq : s'.ready_list ≡ s.ready_list
  pub queues_eq : s'.queues ≡ s.queues
  pub status_eq : (i : ℕ) → (thread_of s' i).status ≡ (thread_of s i).status
  pub exist_eq : (i : ℕ) → (thread_of s' i).exist ≡ (thread_of s i).exist

pub Alike-compose : {s s' s'' : State} → Alike s s' → Alike s' s'' → Alike s s''
Alike-compose a b = record {
  current_eq = b.current_eq ∙ a.current_eq;
  ready_eq = b.ready_eq ∙ a.ready_eq;
  queues_eq = b.queues_eq ∙ a.queues_eq;
  status_eq = λ i. b.status_eq i ∙ a.status_eq i;
  exist_eq = λ i. b.exist_eq i ∙ a.exist_eq i;
}

pub Alike-IsIn : {s s' : State} (i : ℕ) (st : Status) → Alike s s' → IsIn s i st → IsIn s' i st
Alike-IsIn i st a h = (h.0, a.status_eq i ∙ h.1, a.exist_eq i ∙ h.2)

pub Alike-Listed : {s s' : State} → Alike s s' → Listed s → Listed s'
Alike-Listed {s} {s'} a l =
    let w : (q : QueueRef) → waiting s' q ≡ waiting s q =
      λ q. ap (λ f. members (f q)) a.queues_eq in
    record {
      readies = λ i h. Alike-IsIn i ready a (l.readies i (rw a.ready_eq at h));
      waits = λ q i h. Alike-IsIn i suspended a (l.waits q i (rw (w q) at h));
      ready_once = rw a.ready_eq l.ready_once;
      wait_once = λ q. rw (w q) (l.wait_once q);
      apart = λ q r i h k. l.apart q r i (rw (w q) at h) (rw (w r) at k);
    }

pub Alike-Inv : {s s' : State} → Alike s s' → Inv s → Inv s'
Alike-Inv {s} a v = record {
  runs = rw a.current_eq (Alike-IsIn s.current running a v.runs);
  alone = λ i h. v.alone i (sym (a.status_eq i) ∙ h) ∙ sym a.current_eq;
  listed = Alike-Listed a v.listed;
}

pub free_stacks-Alike : (s : State) → Alike s (free_stacks s)
unfolding free_stacks
free_stacks-Alike s = record {
  current_eq = refl;
  ready_eq = refl;
  queues_eq = refl;
  status_eq = λ i. ground arith;
  exist_eq = λ i. ground arith;
}

pub save_context-Alike : (s : State) → Alike s (save_context s)
unfolding save_context
save_context-Alike s = record {
  current_eq = refl;
  ready_eq = refl;
  queues_eq = refl;
  status_eq = λ i. ground arith;
  exist_eq = λ i. ground arith;
}

pub note_switch-Alike : (next : ℕ) (s : State) → Alike s (note_switch next s)
unfolding note_switch
note_switch-Alike next s = record {
  current_eq = refl;
  ready_eq = refl;
  queues_eq = refl;
  status_eq = λ i. ground arith;
  exist_eq = λ i. ground arith;
}

-- The state as the caller goes to the ready list.
abbrev pub noted : ℕ → State → State
noted next s = note_switch next (save_context (free_stacks s))

pub noted-Alike : (next : ℕ) (s : State) → Alike s (noted next s)
noted-Alike next s = Alike-compose (free_stacks-Alike s) (
    Alike-compose (save_context-Alike (free_stacks s))
      (note_switch-Alike next (save_context (free_stacks s))))

-- The ready list of thread_yield when it switches to `next`, and the state then.
abbrev pub rotated : ℕ → State → List ℕ
rotated next s = remove next (pushback_rl s.ready_list s.current)

abbrev pub rotate : ℕ → State → State
rotate next s =
    let n = noted next s in
    switch_to next (record (make_ready n.current n) { ready_list = rotated next n })

save_current-eq :
    (s : State) (next : ℕ)
    → (thread_of s s.current).status ≡ running
    → (thread_of s s.current).exist ≡ true
    → save_current next s
      ≡ make_ready (note_switch next (save_context s)).current (note_switch next (save_context s))
unfolding save_current requeue save_context note_switch
save_current-eq s next a b =
    let t = thread_of s s.current in
    ap (λ st. requeue next (is_running st) t.exist (save_context s)) a
    ∙ ap (λ e. requeue next true e (save_context s)) b

-- What thread_yield chooses: the caller, the first ready thread, or one that it has found.
abbrev IsChoice : Bool → ℕ → State → Type 0
IsChoice b next s =
    ((b ≡ false) × (next ≡ s.current))
    ⊎ (((rest : List ℕ) × (s.ready_list ≡ next ∷ rest))
        ⊎ ((b ≡ true) × (elem next s.ready_list ≡ true)))

choose_any-IsChoice :
    (s : State) (l : List ℕ) (b : Bool) (next : ℕ)
    → s.ready_list ≡ l
    → choose_any l ≡ chosen b next
    → IsChoice b next s
unfolding choose_any
choose_any-IsChoice s [] b next r h = cc
choose_any-IsChoice s (i ∷ l) b next r h =
    let e : i ≡ next = cc in inr (inl (l, r ∙ ap (λ j. j ∷ l) e))

choose-IsChoice :
    (s : State) (want : Tid) (b : Bool) (next : ℕ)
    → choose want s ≡ chosen b next
    → IsChoice b next s
unfolding choose
choose-IsChoice s thread_any b next h = choose_any-IsChoice s s.ready_list b next refl h
choose-IsChoice s thread_self b next h = inl (cc, cc)
choose-IsChoice s (tid i) b next h = elim (Bool-cases (i == s.current)) [
  | inl self ↦ let e = ==→eq i s.current self in inl (cc, cc)
  | inr other ↦ elim (Bool-cases (elem i s.ready_list)) [
    | inl there ↦ inr (inr (cc, cc))
    | inr none_ ↦ cc
  ]
]
choose-IsChoice s thread_invalid b next h = cc
choose-IsChoice s thread_none b next h = cc
choose-IsChoice s thread_nomore b next h = cc
choose-IsChoice s thread_nomemory b next h = cc

IsChoice-elem :
    (s : State) (b : Bool) (next : ℕ)
    → IsChoice b next s
    → elem next (pushback_rl s.ready_list s.current) ≡ true
IsChoice-elem s b next (inl (e, n)) = elem-pushback next s.current s.ready_list ∙ ground arith
IsChoice-elem s b next (inr (inl (rest, r))) =
    elem-pushback next s.current s.ready_list
    ∙ ground (arith, ap (λ l. elem next l) r ∙ elem-cons next next rest)
IsChoice-elem s b next (inr (inr (e, h))) = elem-pushback next s.current s.ready_list ∙ ground arith

-- The list from which the chosen thread is taken out holds the caller at its end.
taken :
    {s : State} (b : Bool) (next : ℕ)
    → Inv s
    → IsChoice b next s
    → delete_node b next (pushback_rl s.ready_list s.current) ≡ some (rotated next s)
taken {s} b next v c =
    let out = (current-Unlisted v).not_ready in
    let known : delete_node true next (pushback_rl s.ready_list s.current) ≡ some (rotated next s) =
      delete_node-remove next (pushback_rl s.ready_list s.current)
        (NoDup-pushback s.current s.ready_list v.listed.ready_once out)
        (IsChoice-elem s b next c) in
    elim c [
      | inl (e, n) ↦
          let back : (x : Bool)
              → delete_node x next (pushback_rl s.ready_list s.current) ≡ some s.ready_list =
            λ x. rw n (delete_node-pushback x s.current s.ready_list out) in
          back b ∙ sym (back true) ∙ known
      | inr (inl (rest, r)) ↦
          let front : (x : Bool)
              → delete_node x next (pushback_rl s.ready_list s.current)
                ≡ some (pushback_rl rest s.current) =
            λ x.
              ap (λ l. delete_node x next l)
                (ap (λ l. pushback_rl l s.current) r ∙ pushback_rl-cons next rest s.current)
              ∙ delete_node-head x next (pushback_rl rest s.current) in
          front b ∙ sym (front true) ∙ known
      | inr (inr (e, h)) ↦ rw e known
    ]

pub dispatch-eq :
    (s : State) (b : Bool) (f : State → Option (Outcome × State)) (next : ℕ) (l : List ℕ)
    → (thread_of s next).status ≡ ready
    → (thread_of s next).exist ≡ true
    → delete_node b next s.ready_list ≡ some l
    → dispatch b f next (thread_of s next).exist s
      ≡ some (switched, switch_to next (record s { ready_list = l }))
unfolding dispatch switch_with
dispatch-eq s b f next l st e d =
    let go : ((next == 0) && is_exited (thread_of s next).status) ≡ false = ground arith in
    ap (λ x. dispatch b f next x s) e
    ∙ ap
        (λ x. switch_with next s (if x then some s.ready_list else delete_node b next s.ready_list))
        go
    ∙ ap (switch_with next s) d

-- The caller is at the end of the ready list, and no thread runs.
abbrev waiting_turn : ℕ → State → State
waiting_turn next s = let n = noted next s in make_ready n.current n

noted-Inv : {s : State} (next : ℕ) → Inv s → Inv (noted next s)
noted-Inv {s} next v = Alike-Inv (noted-Alike next s) v

waiting_turn-Listed : {s : State} (next : ℕ) → Inv s → Listed (waiting_turn next s)
waiting_turn-Listed {s} next v =
    let n = noted-Inv next v in
    make_ready-Listed (noted next s).current n.listed (current-Unlisted n) n.runs.0 n.runs.2

noted-IsChoice :
    (s : State) (b : Bool) (next : ℕ) → IsChoice b next s → IsChoice b next (noted next s)
noted-IsChoice s b next c =
    let a = noted-Alike next s in
    elim c [
      | inl (e, n) ↦ inl (e, n ∙ sym a.current_eq)
      | inr (inl (rest, r)) ↦ inr (inl (rest, a.ready_eq ∙ r))
      | inr (inr (e, h)) ↦ inr (inr (e, ap (λ l. elem next l) a.ready_eq ∙ h))
    ]

-- The chosen thread waits for its turn too.
next-IsIn :
    {s : State} (b : Bool) (next : ℕ)
    → Inv s
    → IsChoice b next s
    → IsIn (waiting_turn next s) next ready
unfolding make_ready
next-IsIn {s} b next v c =
    (waiting_turn-Listed next v).readies next
      (IsChoice-elem (noted next s) b next (noted-IsChoice s b next c))

pub rotate-Inv : {s : State} (b : Bool) (next : ℕ) → Inv s → IsChoice b next s → Inv (rotate next s)
unfolding make_ready
rotate-Inv {s} b next v c =
    let n = noted-Inv next v in
    let all = waiting_turn-Listed next v in
    let st = next-IsIn b next v c in
    let l = rotated next (noted next s) in
    let off : (j : ℕ)
        → elem j l ≡ (if next == j then false else elem j (waiting_turn next s).ready_list) =
      λ j. elem-remove j next (waiting_turn next s).ready_list all.ready_once in
    switch_to-Inv next
      (set_ready-Listed l all (λ j h. ground (arith, off j))
        (NoDup-remove next (waiting_turn next s).ready_list all.ready_once))
      (record {
        not_ready = off next ∙ ground arith;
        not_waiting = λ q. elim (Bool-cases (elem next (waiting (waiting_turn next s) q))) [
          | inl h ↦ let w = all.waits q next h in ground (arith, st)
          | inr h ↦ h
        ];
      })
      st.0 st.2 (λ j ne. ground (arith, n.alone j))

saved-eq : {s : State} (next : ℕ) → Inv s → save_current next (free_stacks s) ≡ waiting_turn next s
unfolding free_stacks
saved-eq {s} next v =
    let f = Alike-IsIn s.current running (free_stacks-Alike s) v.runs in
    save_current-eq (free_stacks s) next f.1 f.2

taken_again :
    {s : State} (b : Bool) (next : ℕ)
    → Inv s
    → IsChoice b next s
    → delete_node b next (waiting_turn next s).ready_list ≡ some (rotated next (noted next s))
unfolding make_ready
taken_again {s} b next v c = taken b next (noted-Inv next v) (noted-IsChoice s b next c)

-- Where the invariant holds, thread_yield switches to the thread it chooses, whatever the fuel: the
-- caller goes to the end of the ready list and the chosen thread is taken out of it.
pub thread_yield-rotate :
    {s : State} (k : ℕ) (want : Tid) (b : Bool) (next : ℕ)
    → Inv s
    → choose want s ≡ chosen b next
    → thread_yield (suc k) want s ≡ some (switched, rotate next s)
unfolding thread_yield yield_to
thread_yield-rotate {s} k want b next v h =
    let c = choose-IsChoice s want b next h in
    let st = next-IsIn b next v c in
    ap (λ o. yield_to (λ s. thread_yield k thread_any s) o s) h
    ∙ ap (λ t. dispatch b (λ s. thread_yield k thread_any s) next (thread_of t next).exist t)
        (saved-eq next v)
    ∙ dispatch-eq (waiting_turn next s) b (λ s. thread_yield k thread_any s) next
        (rotated next (noted next s)) st.1 st.2 (taken_again b next v c)

-- thread_yield keeps the invariant, whatever it does.
pub thread_yield-Inv : {s : State} (k : ℕ) (want : Tid) → Inv s → AllInv (thread_yield k want s)
unfolding thread_yield
thread_yield-Inv zero want v = tt
thread_yield-Inv {s} (suc k) want v = go (choose want s) refl
  where
    go : (o : Choice) → choose want s ≡ o → AllInv (thread_yield (suc k) want s)
    go (chosen b next) h =
        rw (AllInv, thread_yield-rotate k want b next v h)
          (rotate-Inv b next v (choose-IsChoice s want b next h))
    go (refused t) h = rw h v
