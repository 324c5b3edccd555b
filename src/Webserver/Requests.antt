-- ===== src/Webserver/Requests.antt =====
-- The bounded queue of webserver/server_thread.c: server_request, start_thread and server_exit. What a thread
-- does with the mutex held is one step; pthread_cond_wait ends the step, and a thread that is woken starts
-- the next one after it. A connection is its file descriptor.
pub mod Ring
pub mod Order
pub mod Rounds
pub mod Shutdown
use ece334operating_system.Prelude.{
  ℕ, zero, suc, ◌+◌, ◌-◌, ◌%◌, Bool, true, false, ◌&&◌, Option, none, some, List, [], ◌∷◌, ltb,
  ◌==◌, if◌then◌else◌, update,
}

-- struct server without its cache, and the globals of the queue
pub record Server : Type 0 where
  pub nr_threads : ℕ
  pub max_requests : ℕ
  pub exiting : Bool
  pub rq : ℕ → ℕ
  pub rq_start : ℕ
  pub rq_end : ℕ
  pub request_counter : ℕ

-- Where a worker is in start_thread: before the mutex, in pthread_cond_wait, about to return from it, in
-- do_server_request, or at its end.
pub data Worker : Type 0 where
  locking waits_empty woken returned : Worker
  serves : ℕ → Worker

-- Where a thread that calls server_request is: outside, or with a connection in pthread_cond_wait or about
-- to return from it.
pub data Client : Type 0 where
  outside : Client
  waits_full woken_full : ℕ → Client

pub record System : Type 0 where
  pub server : Server
  pub workers : ℕ → Worker
  pub clients : ℕ → Client

abbrev pub wake_worker : Worker → Worker
wake_worker waits_empty = woken
wake_worker w = w

abbrev pub wake_client : Client → Client
wake_client (waits_full c) = woken_full c
wake_client c = c

-- pthread_cond_broadcast of `empty`
abbrev pub broadcast_empty : (ℕ → Worker) → ℕ → Worker
broadcast_empty w i = wake_worker (w i)

-- and of `full`
abbrev pub broadcast_full : (ℕ → Client) → ℕ → Client
broadcast_full c p = wake_client (c p)

-- A worker takes the oldest connection.
unfoldable pub take_request : ℕ → System → System
take_request i y =
    let sv = y.server in
    record {
      server = record sv {
        rq_end = (sv.rq_end + 1) % sv.max_requests;
        request_counter = sv.request_counter - 1;
      };
      workers = update y.workers i (serves (sv.rq sv.rq_end));
      clients =
          if sv.request_counter == sv.max_requests then broadcast_full y.clients else y.clients;
    }

-- A round of start_thread up to do_server_request or pthread_cond_wait; the flag says whether it starts
-- with the return from pthread_cond_wait.
unfoldable pub start_thread : ℕ → Bool → System → System
unfolding take_request
start_thread i woke y =
    if woke && y.server.exiting
    then record y { workers = update y.workers i returned }
    else if y.server.request_counter == 0
    then record y { workers = update y.workers i waits_empty }
    else take_request i y

-- The connection goes into the queue.
unfoldable pub put_request : ℕ → ℕ → System → System
put_request p connfd y =
    let sv = y.server in
    record {
      server = record sv {
        rq = update sv.rq sv.rq_start connfd;
        rq_start = (sv.rq_start + 1) % sv.max_requests;
        request_counter = sv.request_counter + 1;
      };
      workers = if sv.request_counter == 0 then broadcast_empty y.workers else y.workers;
      clients = update y.clients p outside;
    }

-- server_request by thread `p`, from its start or from the return of pthread_cond_wait. With no worker
-- threads the caller serves the request itself.
unfoldable pub server_request : ℕ → ℕ → Bool → System → System
unfolding put_request
server_request p connfd woke y =
    if y.server.nr_threads == 0
    then y
    else if woke && y.server.exiting
    then record y { clients = update y.clients p outside }
    else if y.server.request_counter == y.server.max_requests
    then record y { clients = update y.clients p (waits_full connfd) }
    else put_request p connfd y

-- The part of server_init that makes the queue and starts the workers.
unfoldable pub server_init : ℕ → ℕ → System
server_init nr_threads max_requests = record {
  server = record {
    nr_threads = nr_threads;
    max_requests = max_requests;
    exiting = false;
    rq = λ i. 0;
    rq_start = 0;
    rq_end = 0;
    request_counter = 0;
  };
  workers = λ i. if ltb i nr_threads then locking else returned;
  clients = λ p. outside;
}

-- server_exit, up to pthread_join.
unfoldable pub server_exit : System → System
server_exit y = record y {
  server = record (y.server) { exiting = true };
  workers = broadcast_empty y.workers;
}
