-- ===== src/Webserver/Requests/Rounds.antt =====
-- The queue of webserver/server_thread.c as a system of steps.
use ece334operating_system.Prelude.{
  ℕ, ◌<◌, ◌≡◌, refl, Bool, true, false, ◌&&◌, ◌||◌, List, [], ◌∷◌, ◌++◌, ◌==◌, if◌then◌else◌,
  update, arith, ap, sym, ◌∙◌, inl, inr, Bool-cases, ==→eq, ==→ne,
}
use mathlib.Core.List.{append_assoc, append-nil}
use ece334operating_system.Webserver.Requests.{
  Worker, locking, waits_empty, woken, returned, serves, Client, outside, waits_full, woken_full,
  System, take_request, start_thread, server_request, server_init, server_exit,
}
use ece334operating_system.Webserver.Requests.Order.{
  pending, QueueInv, woken-awake, take_request-pending, put_request-pending,
}

-- The connections that a round of a worker takes.
abbrev pub taken_by : Bool → System → List ℕ
taken_by woke y =
    let sv = y.server in
    if (woke && sv.exiting) || (sv.request_counter == 0) then [] else sv.rq sv.rq_end ∷ []

-- The connections that a round of server_request puts into the queue.
abbrev pub put_by : ℕ → Bool → System → List ℕ
put_by c woke y =
    let sv = y.server in
    if (sv.nr_threads == 0) || (woke && sv.exiting) || (sv.request_counter == sv.max_requests)
    then []
    else c ∷ []

-- The states that the server reaches, with the connections put into the queue and those taken out of it so
-- far. A thread in pthread_cond_wait may also be woken without a broadcast.
pub data Reach (nr max : ℕ) : System → List ℕ → List ℕ → Type 0 where
  begin : Reach nr max (server_init nr max) [] []
  enters :
      {y : System} {put taken : List ℕ} (i : ℕ)
      → Reach nr max y put taken
      → y.workers i ≡ locking
      → Reach nr max (start_thread i false y) put (taken ++ taken_by false y)
  returns :
      {y : System} {put taken : List ℕ} (i : ℕ)
      → Reach nr max y put taken
      → y.workers i ≡ woken
      → Reach nr max (start_thread i true y) put (taken ++ taken_by true y)
  wakes :
      {y : System} {put taken : List ℕ} (i : ℕ)
      → Reach nr max y put taken
      → y.workers i ≡ waits_empty
      → Reach nr max (record y { workers = update y.workers i woken }) put taken
  served :
      {y : System} {put taken : List ℕ} (i c : ℕ)
      → Reach nr max y put taken
      → y.workers i ≡ serves c
      → Reach nr max (record y { workers = update y.workers i locking }) put taken
  calls :
      {y : System} {put taken : List ℕ} (p c : ℕ)
      → Reach nr max y put taken
      → y.clients p ≡ outside
      → Reach nr max (server_request p c false y) (put ++ put_by c false y) taken
  calls_again :
      {y : System} {put taken : List ℕ} (p c : ℕ)
      → Reach nr max y put taken
      → y.clients p ≡ woken_full c
      → Reach nr max (server_request p c true y) (put ++ put_by c true y) taken
  wakes_client :
      {y : System} {put taken : List ℕ} (p c : ℕ)
      → Reach nr max y put taken
      → y.clients p ≡ waits_full c
      → Reach nr max (record y { clients = update y.clients p (woken_full c) }) put taken
  exits :
      {y : System} {put taken : List ℕ}
      → Reach nr max y put taken
      → Reach nr max (server_exit y) put taken

-- What a round of a worker keeps: the invariant, and the order of the queue.
abbrev Ordered : System → List ℕ → List ℕ → Type 0
Ordered y put taken = QueueInv y × (put ≡ taken ++ pending y)

-- A worker may change in any way but to go to sleep.
set_worker-Inv :
    (y : System) (i : ℕ) (w : Worker)
    → QueueInv y
    → (w ≡ waits_empty → y.server.request_counter ≡ 0)
    → QueueInv (record y { workers = update y.workers i w })
set_worker-Inv y i w v h = record {
  end_lt = v.end_lt;
  counter_le = v.counter_le;
  start_eq = v.start_eq;
  empty_sleep = λ j g. elim (Bool-cases (i == j)) [
    | inl this ↦ h (rw this at g)
    | inr other ↦ v.empty_sleep j (rw other at g)
  ];
  full_sleep = v.full_sleep;
}

set_client-Inv :
    (y : System) (p : ℕ) (x : Client)
    → QueueInv y
    → ((c : ℕ) → x ≡ waits_full c → y.server.request_counter ≡ y.server.max_requests)
    → QueueInv (record y { clients = update y.clients p x })
set_client-Inv y p x v h = record {
  end_lt = v.end_lt;
  counter_le = v.counter_le;
  start_eq = v.start_eq;
  empty_sleep = v.empty_sleep;
  full_sleep = λ q c g. elim (Bool-cases (p == q)) [
    | inl this ↦ h c (rw this at g)
    | inr other ↦ v.full_sleep q c (rw other at g)
  ];
}

server_exit-Inv : (y : System) → QueueInv y → QueueInv (server_exit y)
unfolding server_exit
server_exit-Inv y v = record {
  end_lt = v.end_lt;
  counter_le = v.counter_le;
  start_eq = v.start_eq;
  empty_sleep = λ j g. elim (woken-awake (y.workers j) g) [ ];
  full_sleep = v.full_sleep;
}

start_thread-Ordered :
    (i : ℕ) (woke : Bool) (y : System) (put taken : List ℕ)
    → Ordered y put taken
    → Ordered (start_thread i woke y) put (taken ++ taken_by woke y)
unfolding start_thread
start_thread-Ordered i woke y put taken o =
    let same : put ≡ (taken ++ []) ++ pending y =
      o.1 ∙ ap (λ l. l ++ pending y) (sym (append-nil taken)) in
    elim (Bool-cases (woke && y.server.exiting)) [
      | inl quits ↦ rw quits (set_worker-Inv y i returned o.0 (λ e. cc), same)
      | inr on ↦ elim (Bool-cases (y.server.request_counter == 0)) [
        | inl empty ↦
            rw (on, empty)
              (
                set_worker-Inv y i waits_empty o.0 (λ e. ==→eq y.server.request_counter 0 empty),
                same,
              )
        | inr some_ ↦
            let t = take_request-pending i y o.0 (==→ne y.server.request_counter 0 some_) in
            rw (on, some_)
              (
                t.0,
                o.1
                    ∙ ap (λ l. taken ++ l) t.1
                    ∙ sym (
                        append_assoc taken (y.server.rq y.server.rq_end ∷ [])
                          (pending (take_request i y))),
              )
      ]
    ]

server_request-Ordered :
    (p c : ℕ) (woke : Bool) (y : System) (put taken : List ℕ)
    → Ordered y put taken
    → Ordered (server_request p c woke y) (put ++ put_by c woke y) taken
unfolding server_request
server_request-Ordered p c woke y put taken o =
    let same : put ++ [] ≡ taken ++ pending y = append-nil put ∙ o.1 in
    elim (Bool-cases (y.server.nr_threads == 0)) [
      | inl alone ↦ rw alone (o.0, same)
      | inr pool ↦ elim (Bool-cases (woke && y.server.exiting)) [
        | inl quits ↦ rw (pool, quits) (set_client-Inv y p outside o.0 (λ d e. cc), same)
        | inr on ↦ elim (Bool-cases (y.server.request_counter == y.server.max_requests)) [
          | inl full ↦
              rw (pool, on, full)
                (
                  set_client-Inv y p (waits_full c) o.0
                      (λ d e. ==→eq y.server.request_counter y.server.max_requests full),
                  same,
                )
          | inr room ↦
              let t =
                put_request-pending p c y o.0
                  (==→ne y.server.request_counter y.server.max_requests room) in
              rw (pool, on, room)
                (
                  t.0,
                  ap (λ l. l ++ (c ∷ [])) o.1
                      ∙ append_assoc taken (pending y) (c ∷ [])
                      ∙ ap (λ l. taken ++ l) (sym t.1),
                )
        ]
      ]
    ]

server_init-Inv : (nr max : ℕ) → 0 < max → QueueInv (server_init nr max)
unfolding server_init
server_init-Inv nr max h = record {
  end_lt = h;
  counter_le = omega arith;
  start_eq = ground arith;
  empty_sleep = λ i e. refl;
  full_sleep = λ p c e. cc;
}

pub Reach-Ordered :
    (nr max : ℕ) (y : System) (put taken : List ℕ)
    → 0 < max
    → Reach nr max y put taken
    → QueueInv y × (put ≡ taken ++ pending y)
unfolding server_init server_exit
Reach-Ordered nr max y put taken h begin = (server_init-Inv nr max h, refl)
Reach-Ordered nr max y put taken h (enters i r e) =
    start_thread-Ordered i false _ _ _ (Reach-Ordered nr max _ _ _ h r)
Reach-Ordered nr max y put taken h (returns i r e) =
    start_thread-Ordered i true _ _ _ (Reach-Ordered nr max _ _ _ h r)
Reach-Ordered nr max y put taken h (wakes i r e) =
    let o = Reach-Ordered nr max _ _ _ h r in (set_worker-Inv _ i woken o.0 (λ g. cc), o.1)
Reach-Ordered nr max y put taken h (served i c r e) =
    let o = Reach-Ordered nr max _ _ _ h r in (set_worker-Inv _ i locking o.0 (λ g. cc), o.1)
Reach-Ordered nr max y put taken h (calls p c r e) =
    server_request-Ordered p c false _ _ _ (Reach-Ordered nr max _ _ _ h r)
Reach-Ordered nr max y put taken h (calls_again p c r e) =
    server_request-Ordered p c true _ _ _ (Reach-Ordered nr max _ _ _ h r)
Reach-Ordered nr max y put taken h (wakes_client p c r e) =
    let o = Reach-Ordered nr max _ _ _ h r in
    (set_client-Inv _ p (woken_full c) o.0 (λ d g. cc), o.1)
Reach-Ordered nr max y put taken h (exits r) =
    let o = Reach-Ordered nr max _ _ _ h r in (server_exit-Inv _ o.0, o.1)
