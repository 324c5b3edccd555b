-- ===== src/Tests/WebserverTests.antt =====
-- webserver/server_thread.c with a queue of two places and a cache of ten bytes.
use ece334operating_system.Prelude.{ℕ, ◌≡◌, refl, false, Option, none, some, [], ◌∷◌, ◌++◌, arith}
use ece334operating_system.Threads.Yield.{last}
use ece334operating_system.Webserver.Requests.{
  locking, waits_empty, System, server_init, start_thread, server_request, server_exit,
}
use ece334operating_system.Webserver.Requests.Order.{pending, QueueInv}
use ece334operating_system.Webserver.Requests.Rounds.{Reach, begin, calls, Reach-Ordered}
use ece334operating_system.Webserver.Requests.Shutdown.{rests, start_thread-hangs}
use ece334operating_system.Webserver.Cache.{
  File, Cache, cache_init, hash_key, cache_lookup, second_lookup, hash, hash_from, lookup_chain,
  hit_or, admit, insert_and_use, cache_insert, insert_element, use_element, delete_swap_node,
  swap_in, pushback_lru, append_chain,
}
use ece334operating_system.Webserver.Cache.Inv.{CacheInv}
use ece334operating_system.Webserver.Cache.Evict.{Evicts, cache_evict-Evicts}
use ece334operating_system.Webserver.Cache.Sections.{HeadOnly, cache_lookup-HeadOnly, ref_of}
use ece334operating_system.Webserver.Cache.Requested.{
  Requested, begin, looks_again, count, Requested-Used,
}

-- One worker and two calls of server_request, with the connections 5 and 6.
abbrev at_start : System
at_start = server_init 1 2

abbrev one_request : System
one_request = server_request 0 5 false at_start

abbrev two_requests : System
two_requests = server_request 0 6 false one_request

two_requests-Reach : Reach 1 2 two_requests (5 ∷ 6 ∷ []) []
unfolding server_request server_init
two_requests-Reach = calls 0 6 (calls 0 5 begin refl) refl

Reach-Ordered_example : QueueInv two_requests × (5 ∷ 6 ∷ [] ≡ [] ++ pending two_requests)
Reach-Ordered_example =
    Reach-Ordered 1 2 two_requests (5 ∷ 6 ∷ []) [] (omega arith) two_requests-Reach

at_start-empty : at_start.server.request_counter ≡ 0
unfolding server_init
at_start-empty = refl

at_start-locking : at_start.workers 0 ≡ locking
unfolding server_init
at_start-locking = refl

start_thread-hangs_example : (start_thread 0 false (server_exit at_start)).workers 0 ≡ waits_empty
start_thread-hangs_example =
    start_thread-hangs 0 at_start (start_thread 0 false (server_exit at_start)) at_start-empty
      at_start-locking (rests (start_thread 0 false (server_exit at_start)))

-- The file "a" of 7 bytes, in a cache of ten bytes.
abbrev file_a : File
file_a = record { file_name = 97 ∷ []; file_size = 7 }

abbrev cache_of : Option (Option ℕ × Cache) → Cache
cache_of none = cache_init 10
cache_of (some r) = r.1

abbrev with_a : Cache
with_a = cache_of (second_lookup file_a (cache_init 10))

with_a-used : second_lookup file_a (cache_init 10) ≡ some (some 0, with_a)
unfolding second_lookup cache_lookup hash_key hash hash_from lookup_chain hit_or admit
    insert_and_use cache_insert insert_element use_element delete_swap_node swap_in last
    pushback_lru append_chain cache_init
with_a-used = refl

with_a-Requested : Requested 10 with_a (0 ∷ [])
with_a-Requested = looks_again file_a (some 0, with_a) begin with_a-used

Requested-Used_example : CacheInv with_a × ((i : ℕ) → ref_of (with_a.elements i) ≡ count i (0 ∷ []))
Requested-Used_example = Requested-Used 10 with_a (0 ∷ []) with_a-Requested

with_a-CacheInv : CacheInv with_a
with_a-CacheInv = (Requested-Used 10 with_a (0 ∷ []) with_a-Requested).0

cache_evict-Evicts_example : Evicts 3 with_a
cache_evict-Evicts_example = cache_evict-Evicts 3 with_a with_a-CacheInv

with_a-key : hash_key with_a.max_cache_size (97 ∷ []) ≡ some 0
unfolding second_lookup cache_lookup hash_key hash hash_from lookup_chain hit_or admit
    insert_and_use cache_insert insert_element use_element delete_swap_node swap_in last
    pushback_lru append_chain cache_init
with_a-key = refl

cache_lookup-HeadOnly_example :
    (o : Option ℕ) × (cache_lookup (97 ∷ []) with_a ≡ some o)
    × HeadOnly (97 ∷ []) with_a (with_a.ht 0) o
cache_lookup-HeadOnly_example = cache_lookup-HeadOnly (97 ∷ []) with_a 0 with_a-CacheInv with_a-key
