-- ===== src/Webserver/Requests/Shutdown.antt =====
-- server_exit of webserver/server_thread.c and a worker that was busy.
use ece334operating_system.Prelude.{
  ℕ, ◌≡◌, ◌≢◌, Bool, true, false, ◌&&◌, update, arith, ap, sym, ◌∙◌, inl, inr, Bool-cases, eq→==,
}
use ece334operating_system.Webserver.Requests.{
  locking, waits_empty, woken, serves, System, start_thread, server_exit,
}

-- What the workers do from a state on, where no thread calls server_request and none is woken without a
-- broadcast.
pub data Works : System → System → Type 0 where
  rests : (y : System) → Works y y
  enters :
      (y y' : System) (i : ℕ)
      → y.workers i ≡ locking
      → Works (start_thread i false y) y'
      → Works y y'
  returns :
      (y y' : System) (i : ℕ) → y.workers i ≡ woken → Works (start_thread i true y) y' → Works y y'
  served :
      (y y' : System) (i c : ℕ)
      → y.workers i ≡ serves c
      → Works (record y { workers = update y.workers i locking }) y'
      → Works y y'

-- Worker `i` sleeps, and no connection is there.
record Sleeps (i : ℕ) (y : System) : Type 0 where
  asleep : y.workers i ≡ waits_empty
  empty : y.server.request_counter ≡ 0

start_thread-Sleeps :
    (i j : ℕ) (woke : Bool) (y : System)
    → Sleeps i y
    → y.workers j ≢ waits_empty
    → Sleeps i (start_thread j woke y)
unfolding start_thread
start_thread-Sleeps i j woke y s ne =
    let other : j ≢ i = λ e. ne (ap y.workers e ∙ s.asleep) in
    elim (Bool-cases (woke && y.server.exiting)) [
      | inl quits ↦ rw quits (record { asleep = ground (arith, s.asleep); empty = s.empty })
      | inr on ↦
          rw (on, eq→== y.server.request_counter 0 s.empty)
            (record { asleep = ground (arith, s.asleep); empty = s.empty })
    ]

Works-Sleeps : (i : ℕ) (y y' : System) → Sleeps i y → Works y y' → Sleeps i y'
Works-Sleeps i y y' s (rests z) = s
Works-Sleeps i y y' s (enters a b j e w) =
    Works-Sleeps i _ y' (start_thread-Sleeps i j false y s (λ h. cc)) w
Works-Sleeps i y y' s (returns a b j e w) =
    Works-Sleeps i _ y' (start_thread-Sleeps i j true y s (λ h. cc)) w
Works-Sleeps i y y' s (served a b j c e w) =
    let other : j ≢ i =
      λ h. let g : y.workers i ≡ serves c = ap y.workers (sym h) ∙ e in let k = s.asleep in cc in
    Works-Sleeps i _ y' (record { asleep = ground (arith, s.asleep); empty = s.empty }) w

pub start_thread-hangs :
    (i : ℕ) (y y' : System)
    → y.server.request_counter ≡ 0
    → y.workers i ≡ locking
    → Works (start_thread i false (server_exit y)) y'
    → y'.workers i ≡ waits_empty
unfolding start_thread server_exit
start_thread-hangs i y y' e l w =
    (Works-Sleeps i (start_thread i false (server_exit y)) y'
      (record {
        asleep = rw (eq→== y.server.request_counter 0 e) (ground arith);
        empty = rw (eq→== y.server.request_counter 0 e) e;
      })
      w).asleep
