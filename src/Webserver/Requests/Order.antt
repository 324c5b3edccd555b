-- ===== src/Webserver/Requests/Order.antt =====
-- The queue of webserver/server_thread.c as a system of steps: the order of the requests, and no lost wakeup.
use ece334operating_system.Prelude.{
  ℕ, suc, ◌+◌, ◌-◌, ◌<◌, ◌≤◌, ◌≡◌, ◌≢◌, List, [], ◌∷◌, ◌++◌, ◌==◌, update, update_self, arith, ap,
  sym, ◌∙◌, inl, inr, Bool-cases, ==→ne,
}
use ece334operating_system.Webserver.Requests.{
  Worker, locking, waits_empty, woken, returned, serves, Client, outside, waits_full, woken_full,
  System, wake_worker, wake_client, take_request, put_request,
}
use ece334operating_system.Webserver.Requests.Ring.{
  wrap, window, wrap-mod, window-snoc, window-update,
}

-- The connections in the queue, oldest first.
abbrev pub pending : System → List ℕ
pending y = let sv = y.server in window sv.rq sv.max_requests sv.rq_end sv.request_counter

-- The ring is used within its bounds, and no thread sleeps that could go on: a worker sleeps only while the
-- queue is empty, and a thread of server_request only while it is full.
pub record QueueInv (y : System) : Type 0 where
  pub end_lt : y.server.rq_end < y.server.max_requests
  pub counter_le : y.server.request_counter ≤ y.server.max_requests
  pub start_eq :
      y.server.rq_start ≡ wrap y.server.max_requests (y.server.rq_end + y.server.request_counter)
  pub empty_sleep : (i : ℕ) → y.workers i ≡ waits_empty → y.server.request_counter ≡ 0
  pub full_sleep :
      (p c : ℕ) → y.clients p ≡ waits_full c → y.server.request_counter ≡ y.server.max_requests

pub woken-awake : (w : Worker) → wake_worker w ≢ waits_empty
woken-awake locking e = cc
woken-awake waits_empty e = cc
woken-awake woken e = cc
woken-awake returned e = cc
woken-awake (serves c) e = cc

client-awake : (x : Client) (c : ℕ) → wake_client x ≢ waits_full c
client-awake outside c e = cc
client-awake (waits_full d) c e = cc
client-awake (woken_full d) c e = cc

ring-take : (m e n : ℕ) → e < m → n ≤ m → n ≢ 0 → wrap m (e + n) ≡ wrap m (wrap m (e + 1) + (n - 1))
ring-take m e n h k ne = ground arith

ring-put : (m e n : ℕ) → e < m → n < m → wrap m (wrap m (e + n) + 1) ≡ wrap m (e + (n + 1))
ring-put m e n h k = ground arith

wrap-lt : (m e : ℕ) → e < m + m → wrap m e < m
wrap-lt m e h = ground arith

-- take_request takes the head of the queue.
pub take_request-pending :
    (i : ℕ) (y : System)
    → QueueInv y
    → y.server.request_counter ≢ 0
    → QueueInv (take_request i y)
      × (pending y ≡ y.server.rq y.server.rq_end ∷ pending (take_request i y))
unfolding take_request
take_request-pending i y v ne =
    let sv = y.server in
    let m = sv.max_requests in
    let n = sv.request_counter in
    let e = wrap-mod m sv.rq_end v.end_lt in
    let pos : n ≡ suc (n - 1) = omega arith in
    (
      record {
        end_lt = rw e (wrap-lt m (sv.rq_end + 1) (omega arith));
        counter_le = omega arith;
        start_eq =
            v.start_eq
            ∙ ring-take m sv.rq_end n v.end_lt v.counter_le ne
            ∙ ap (λ k. wrap m (k + (n - 1))) (sym e);
        empty_sleep = λ j h. elim (Bool-cases (i == j)) [
          | inl this ↦ let g : serves (sv.rq sv.rq_end) ≡ waits_empty = rw this at h in cc
          | inr other ↦
              let g : y.workers j ≡ waits_empty = rw other at h in elim (ne (v.empty_sleep j g)) [ ]
        ];
        full_sleep = λ p c h. elim (Bool-cases (n == m)) [
          | inl was_full ↦
              let g : wake_client (y.clients p) ≡ waits_full c = rw was_full at h in
              elim (client-awake (y.clients p) c g) [ ]
          | inr more ↦
              let g : y.clients p ≡ waits_full c = rw more at h in
              elim (==→ne n m more (v.full_sleep p c g)) [ ]
        ];
      },
      ap (window sv.rq m sv.rq_end) pos
          ∙ ap (λ k. sv.rq sv.rq_end ∷ window sv.rq m k (n - 1)) (sym e),
    )

-- put_request adds to the end of the queue.
pub put_request-pending :
    (p c : ℕ) (y : System)
    → QueueInv y
    → y.server.request_counter ≢ y.server.max_requests
    → QueueInv (put_request p c y) × (pending (put_request p c y) ≡ pending y ++ (c ∷ []))
unfolding put_request
put_request-pending p c y v ne =
    let sv = y.server in
    let m = sv.max_requests in
    let n = sv.request_counter in
    let at_start = wrap m (sv.rq_end + n) in
    let lt : n < m = ground (arith, v.counter_le) in
    let in_ring : sv.rq_start < m =
      rw v.start_eq (wrap-lt m (sv.rq_end + n) (ground (arith, v.end_lt))) in
    let e = wrap-mod m sv.rq_start in_ring in
    let up : n + 1 ≡ suc n = omega arith in
    let new : ℕ → ℕ = update sv.rq sv.rq_start c in
    (
      record {
        end_lt = v.end_lt;
        counter_le = ground arith;
        start_eq = e ∙ ap (λ k. wrap m (k + 1)) v.start_eq ∙ ring-put m sv.rq_end n v.end_lt lt;
        empty_sleep = λ j h. elim (Bool-cases (n == 0)) [
          | inl was_empty ↦
              let g : wake_worker (y.workers j) ≡ waits_empty = rw was_empty at h in
              elim (woken-awake (y.workers j) g) [ ]
          | inr more ↦
              let g : y.workers j ≡ waits_empty = rw more at h in
              elim (==→ne n 0 more (v.empty_sleep j g)) [ ]
        ];
        full_sleep = λ q d h. elim (Bool-cases (p == q)) [
          | inl this ↦ let g : outside ≡ waits_full d = rw this at h in cc
          | inr other ↦
              let g : y.clients q ≡ waits_full d = rw other at h in
              elim (ne (v.full_sleep q d g)) [ ]
        ];
      },
      ap (window new m sv.rq_end) up
          ∙ window-snoc new m sv.rq_end n v.end_lt lt
          ∙ ap (λ l. l ++ (new at_start ∷ []))
              (ap (λ k. window (update sv.rq k c) m sv.rq_end n) v.start_eq
                ∙ window-update sv.rq m sv.rq_end n n c v.end_lt (omega arith) lt)
          ∙ ap (λ x. pending y ++ (x ∷ []))
              (ap (update sv.rq sv.rq_start c) (sym v.start_eq) ∙ update_self sv.rq sv.rq_start c),
    )
