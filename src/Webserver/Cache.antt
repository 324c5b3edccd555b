-- ===== src/Webserver/Cache.antt =====
-- The cache of webserver/server_thread.c: hash, cache_lookup, cache_insert, cache_evict and what
-- do_server_request does with the mutex held. An element of the table and its node of the list of recent use
-- have the same name, a number that malloc gives out once. An outer `none` is an access outside the table,
-- through NULL or to an element that is freed.
pub mod Lists
pub mod Inv
pub mod Insert
pub mod Evict
pub mod Sections
pub mod Requested
use ece334operating_system.Prelude.{
  same_word, ℕ, zero, suc, ◌+◌, ◌-◌, ◌*◌, ◌%◌, ◌^◌, Bool, true, false, ◌&&◌, Option, none, some,
  List, [], ◌∷◌, ◌++◌, ltb, leb, ◌==◌, ◌>>=◌, if◌then◌else◌, update,
}
use ece334operating_system.Threads.Yield.{elem, last, without_last, remove}

-- struct file_data; the bytes of the file are left out.
pub record File : Type 0 where
  pub file_name : List ℕ
  pub file_size : ℕ

-- wordsElement, with its chain and its node elsewhere
pub record Element : Type 0 where
  pub word : List ℕ
  pub sizeofword : ℕ
  pub key : ℕ
  pub ref_count : ℕ
  pub data_of : File

-- The cache of struct server: the chains of the table, and the list from the head, the element least recently
-- used.
pub record Cache : Type 0 where
  pub max_cache_size : ℕ
  pub current_size : ℕ
  pub ht : ℕ → List ℕ
  pub lq : List ℕ
  pub elements : ℕ → Option Element
  pub next_element : ℕ

-- The part of server_init that makes the cache.
unfoldable pub cache_init : ℕ → Cache
cache_init max_cache_size = record {
  max_cache_size = max_cache_size;
  current_size = 0;
  ht = λ k. [];
  lq = [];
  elements = λ e. none;
  next_element = 0;
}

-- A char with its sign, as an int of 32 bits.
abbrev pub char_value : ℕ → ℕ
char_value c = if ltb c 128 then c else c + 4294967040

-- The loop of hash; the int wraps around.
unfoldable pub hash_from : ℕ → List ℕ → ℕ
hash_from h [] = h
hash_from h (c ∷ s) = hash_from ((h * 33 + char_value c) % 2 ^ 32) s

unfoldable pub hash : List ℕ → ℕ
unfolding hash_from
hash s = hash_from 5381 s

-- `hash(name) % max_cache_size`: for a negative hash the remainder is not above 0, and below 0 it is outside
-- the table.
unfoldable pub hash_key : ℕ → List ℕ → Option ℕ
unfolding hash
hash_key m s =
    let h = hash s in
    if ltb h (2 ^ 31) then some (h % m) else if ((2 ^ 32 - h) % m) == 0 then some 0 else none

-- The loop of cache_lookup, which compares with the word of the first element in each round.
unfoldable pub lookup_loop : Bool → List ℕ → Option ℕ
lookup_loop same [] = none
lookup_loop same (e ∷ l) = if same then some e else lookup_loop same l

unfoldable pub lookup_chain : List ℕ → Cache → List ℕ → Option (Option ℕ)
unfolding lookup_loop same_word
lookup_chain name c [] = some none
lookup_chain name c (e ∷ l) =
    c.elements e >>= λ x. some (lookup_loop (same_word name x.word) (e ∷ l))

unfoldable pub cache_lookup : List ℕ → Cache → Option (Option ℕ)
unfolding lookup_chain hash_key
cache_lookup name c = hash_key c.max_cache_size name >>= λ k. lookup_chain name c (c.ht k)

unfoldable pub pushback_lru : List ℕ → ℕ → List ℕ
pushback_lru [] e = e ∷ []
pushback_lru (j ∷ l) e = j ∷ pushback_lru l e

-- The end of a chain.
unfoldable pub append_chain : List ℕ → ℕ → List ℕ
append_chain [] e = e ∷ []
append_chain (j ∷ l) e = j ∷ append_chain l e

-- The new element, at the end of its chain and of the list.
unfoldable pub insert_element : ℕ → File → Cache → Cache
unfolding append_chain pushback_lru
insert_element k file c =
    let e = c.next_element in
    let x : Element = record {
      word = file.file_name;
      sizeofword = file.file_size;
      key = k;
      ref_count = 0;
      data_of = file;
    } in
    record c {
      ht = update c.ht k (append_chain (c.ht k) e);
      lq = pushback_lru c.lq e;
      elements = update c.elements e (some x);
      next_element = e + 1;
    }

unfoldable pub cache_insert : File → Cache → Option (ℕ × Cache)
unfolding insert_element hash_key
cache_insert file c =
    hash_key c.max_cache_size file.file_name >>= λ k. some (c.next_element, insert_element k file c)

-- deleteSwapNode on the list: 0 takes the node out, 1 moves it to the end.
unfoldable pub swap_in : ℕ → ℕ → List ℕ → Option (List ℕ)
unfolding last without_last remove elem pushback_lru
swap_in e command [] = none
swap_in e command (j ∷ l) =
    if e == j
    then some (if command == 0 then l else pushback_lru l j)
    else if e == last j l
    then some (if command == 0 then without_last j l else j ∷ l)
    else if elem e (j ∷ l)
    then some (if command == 0 then remove e (j ∷ l) else pushback_lru (remove e (j ∷ l)) e)
    else none

unfoldable pub delete_swap_node : ℕ → ℕ → Cache → Option Cache
unfolding swap_in
delete_swap_node e command c = swap_in e command c.lq >>= λ l. some (record c { lq = l })

unfoldable pub delete_chain : ℕ → List ℕ → Option (List ℕ)
delete_chain e [] = none
delete_chain e (j ∷ l) =
    let rest = delete_chain e l in if e == j then some l else rest >>= λ r. some (j ∷ r)

-- deleteHash: the element leaves its chain and is freed.
unfoldable pub delete_hash : ℕ → Cache → Option Cache
unfolding delete_chain
delete_hash e c = c.elements e >>= λ x. delete_chain e (c.ht x.key) >>= λ l.
    some (record c { ht = update c.ht x.key l; elements = update c.elements e none })

-- The first element of the list that no request uses.
unfoldable pub find_unused_node : Cache → List ℕ → Option (Option ℕ)
find_unused_node c [] = some none
find_unused_node c (e ∷ l) =
    let rest = find_unused_node c l in
    c.elements e >>= λ x. if x.ref_count == 0 then some (some e) else rest

-- The rest of cache_evict on element `e`.
unfoldable pub evict_node : ℕ → ℕ → Element → Cache → Option (Bool × Cache)
unfolding delete_hash delete_swap_node
evict_node amount e x c =
    let gone : Option (Bool × Cache) =
      delete_hash e (record c { current_size = c.current_size - x.sizeofword }) >>= λ c1.
      delete_swap_node e 0 c1 >>= λ c2. some (true, c2) in
    if leb amount x.sizeofword then gone else some (false, c)

unfoldable pub evict_found : ℕ → Option ℕ → Cache → Option (Bool × Cache)
unfolding evict_node
evict_found amount none c = some (false, c)
evict_found amount (some e) c = c.elements e >>= λ x. evict_node amount e x c

-- Whether the space was made.
unfoldable pub cache_evict : ℕ → Cache → Option (Bool × Cache)
unfolding evict_found find_unused_node
cache_evict amount c = find_unused_node c c.lq >>= λ o. evict_found amount o c

-- A request uses element `e`, which becomes the most recent one.
unfoldable pub use_element : ℕ → Cache → Option Cache
unfolding delete_swap_node
use_element e c = c.elements e >>= λ x.
    delete_swap_node e 1 (record c {
      elements = update c.elements e (some (record x { ref_count = x.ref_count + 1 }));
    })

-- The request is done with it.
unfoldable pub drop_element : ℕ → Cache → Option Cache
drop_element e c = c.elements e >>= λ x.
    some (record c {
      elements = update c.elements e (some (record x { ref_count = x.ref_count - 1 }));
    })

-- The new file goes into the cache, and the request uses it.
unfoldable pub insert_and_use : File → Cache → Option (Option ℕ × Cache)
unfolding cache_insert use_element
insert_and_use file c =
    cache_insert file (record c { current_size = c.current_size + file.file_size }) >>= λ r.
    use_element r.0 r.1 >>= λ c2. some (some r.0, c2)

unfoldable pub insert_evicted : File → Bool × Cache → Option (Option ℕ × Cache)
unfolding insert_and_use
insert_evicted file (false, c) = some (none, c)
insert_evicted file (true, c) = insert_and_use file c

-- A file that is not in the cache: with room for it at once, otherwise with the eviction of one element.
unfoldable pub admit : File → Cache → Option (Option ℕ × Cache)
unfolding insert_and_use cache_evict insert_evicted
admit file c =
    let evicted : Option (Option ℕ × Cache) =
      cache_evict (file.file_size - (c.max_cache_size - c.current_size)) c >>= λ r.
      insert_evicted file r in
    if leb (c.current_size + file.file_size) c.max_cache_size
    then insert_and_use file c
    else evicted

unfoldable pub hit_or : Option (Option ℕ × Cache) → Option ℕ → Cache → Option (Option ℕ × Cache)
unfolding use_element
hit_or miss none c = miss
hit_or miss (some e) c = use_element e c >>= λ c1. some (some e, c1)

-- do_server_request up to the file's reading: the element that the request uses, if the file is cached.
unfoldable pub first_lookup : List ℕ → Cache → Option (Option ℕ × Cache)
unfolding cache_lookup hit_or
first_lookup name c = cache_lookup name c >>= λ o. hit_or (some (none, c)) o c

-- do_server_request after the file was read; without an element the file is sent and freed.
unfoldable pub second_lookup : File → Cache → Option (Option ℕ × Cache)
unfolding cache_lookup hit_or admit
second_lookup file c = cache_lookup file.file_name c >>= λ o. hit_or (admit file c) o c
