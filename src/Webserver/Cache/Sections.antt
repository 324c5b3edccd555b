-- ===== src/Webserver/Cache/Sections.antt =====
-- What do_server_request of webserver/server_thread.c does to the cache: the invariant, for all states that
-- requests lead to, and what cache_lookup finds.
use ece334operating_system.Prelude.{
  same_word, ℕ, ◌+◌, ◌-◌, ◌≤◌, ◌≡◌, refl, Bool, true, false, Option, none, some, List, [], ◌∷◌,
  ◌==◌, leb, if◌then◌else◌, update_self, arith, ap, sym, ◌∙◌, inl, inr, Bool-cases, Option-cases,
  ==→eq,
}
use ece334operating_system.Threads.Yield.{elem}
use ece334operating_system.Threads.Lists.{elem-cons}
use ece334operating_system.Webserver.Cache.{
  File, Element, Cache, hash_key, lookup_loop, lookup_chain, cache_lookup, insert_element,
  cache_insert, insert_and_use, insert_evicted, admit, hit_or, first_lookup, second_lookup,
}
use ece334operating_system.Webserver.Cache.Inv.{CacheInv, evicted}
use ece334operating_system.Webserver.Cache.Insert.{insert_element-CacheInv}
use ece334operating_system.Webserver.Cache.Evict.{
  used, use_element-eq, used-CacheInv, cache_evict-Evicts,
}

-- the number of requests that use an element
abbrev pub ref_of : Option Element → ℕ
ref_of none = 0
ref_of (some x) = x.ref_count

-- one more for the element that a request has got
abbrev pub bump : Option ℕ → ℕ → ℕ → ℕ
bump none i n = n
bump (some e) i n = if e == i then n + 1 else n

abbrev Counts : Option ℕ → Cache → Cache → Type 0
Counts o c d = (i : ℕ) → ref_of (d.elements i) ≡ bump o i (ref_of (c.elements i))

-- The step ends, leaves the invariant and the limit, and counts the request.
abbrev pub Keeps : Cache → Option (Option ℕ × Cache) → Type 0
Keeps c o =
    (r : Option ℕ × Cache) × (o ≡ some r)
    × CacheInv r.1
    × (r.1.max_cache_size ≡ c.max_cache_size)
    × Counts r.0 c r.1

used-Counts :
    (e : ℕ) (x : Element) (c : Cache) → c.elements e ≡ some x → Counts (some e) c (used e x c)
used-Counts e x c h i = elim (Bool-cases (e == i)) [
  | inl this ↦ rw this (ap (λ o. ref_of o + 1) (sym h ∙ ap c.elements (==→eq e i this)))
  | inr other ↦ rw other refl
]

Counts-compose : (o : Option ℕ) (c d b : Cache) → Counts none c d → Counts o d b → Counts o c b
Counts-compose o c d b f g i = g i ∙ ap (λ n. bump o i n) (f i)

unused_next : {c : Cache} → CacheInv c → c.elements c.next_element ≡ none
unused_next {c} v = elim (Option-cases (c.elements c.next_element)) [
  | inl n ↦ n
  | inr (x, n) ↦ let lt = v.fresh c.next_element x n in ground arith
]

insert_and_use-Keeps :
    (file : File) (c : Cache) (k : ℕ)
    → CacheInv c
    → hash_key c.max_cache_size file.file_name ≡ some k
    → c.current_size + file.file_size ≤ c.max_cache_size
    → Keeps c (insert_and_use file c)
unfolding insert_and_use cache_insert insert_element
insert_and_use-Keeps file c k v h room =
    let grown : Cache = record c { current_size = c.current_size + file.file_size } in
    let d = insert_element k file grown in
    let w = insert_element-CacheInv k file v room in
    let x : Element = record {
      word = file.file_name;
      sizeofword = file.file_size;
      key = k;
      ref_count = 0;
      data_of = file;
    } in
    let here : d.elements c.next_element ≡ some x =
      update_self c.elements c.next_element (some x) in
    let new_count : Counts none c d = λ i. elim (Bool-cases (c.next_element == i)) [
      | inl this ↦
          rw this (ap ref_of (sym (unused_next v) ∙ ap c.elements (==→eq c.next_element i this)))
      | inr other ↦ rw other refl
    ] in
    (
      (some c.next_element, used c.next_element x d),
      rw (h, use_element-eq c.next_element x d w here) refl,
      used-CacheInv c.next_element x d w here,
      refl,
      Counts-compose (some c.next_element) c d (used c.next_element x d) new_count
          (used-Counts c.next_element x d here),
    )

hit_or-Keeps :
    (miss : Option (Option ℕ × Cache)) (o : Option ℕ) (c : Cache)
    → CacheInv c
    → Keeps c miss
    → ((e : ℕ) → o ≡ some e → (x : Element) × (c.elements e ≡ some x))
    → Keeps c (hit_or miss o c)
unfolding hit_or
hit_or-Keeps miss none c v m h = m
hit_or-Keeps miss (some e) c v m h =
    let x = h e refl in
    (
      (some e, used e x.0 c),
      rw (use_element-eq e x.0 c v x.1) refl,
      used-CacheInv e x.0 c v x.1,
      refl,
      used-Counts e x.0 c x.1,
    )

evicted-room : (n m s z w : ℕ) → w + z ≡ n → n ≤ m → s - (m - n) ≤ z → w + s ≤ m
evicted-room n m s z w a b d = omega arith

-- No request used the element.
evicted-Counts :
    (e : ℕ) (x : Element) (c : Cache)
    → c.elements e ≡ some x
    → x.ref_count ≡ 0
    → Counts none c (evicted e x c)
evicted-Counts e x c h unused i = elim (Bool-cases (e == i)) [
  | inl this ↦ rw this (sym unused ∙ ap ref_of (sym h ∙ ap c.elements (==→eq e i this)))
  | inr other ↦ rw other refl
]

admit-Keeps :
    (file : File) (c : Cache) (k : ℕ)
    → CacheInv c
    → hash_key c.max_cache_size file.file_name ≡ some k
    → Keeps c (admit file c)
unfolding admit insert_evicted
admit-Keeps file c k v h =
    let amount = file.file_size - (c.max_cache_size - c.current_size) in
    elim (Bool-cases (leb (c.current_size + file.file_size) c.max_cache_size)) [
      | inl room ↦ rw room (insert_and_use-Keeps file c k v h (ground arith))
      | inr full ↦ elim (cache_evict-Evicts amount c v) [
        | inl kept ↦ rw (full, kept) ((none, c), refl, v, refl, λ i. refl)
        | inr (e, older, newer, x, l, busy, at_e, unused, enough, gone, w, sum) ↦
            let i = insert_and_use-Keeps file (evicted e x c) k w h (
              evicted-room c.current_size c.max_cache_size file.file_size x.sizeofword
                (evicted e x c).current_size sum v.size_le enough) in
            rw (full, gone)
              (
                i.0,
                i.1,
                i.2,
                i.3,
                Counts-compose (i.0).0 c (evicted e x c) (i.0).1 (evicted-Counts e x c at_e unused)
                    i.4,
              )
      ]
    ]

-- What cache_lookup finds: it compares with the first element of the chain only.
abbrev pub HeadOnly : List ℕ → Cache → List ℕ → Option ℕ → Type 0
HeadOnly name c [] o = o ≡ none
HeadOnly name c (e ∷ l) o =
    (x : Element) × (c.elements e ≡ some x) × (o ≡ (if same_word name x.word then some e else none))

lookup_loop-false : (l : List ℕ) → lookup_loop false l ≡ none
unfolding lookup_loop
lookup_loop-false [] = refl
lookup_loop-false (e ∷ l) = lookup_loop-false l

lookup_loop-head :
    (b : Bool) (e : ℕ) (l : List ℕ) → lookup_loop b (e ∷ l) ≡ (if b then some e else none)
unfolding lookup_loop
lookup_loop-head true e l = refl
lookup_loop-head false e l = lookup_loop-false l

lookup_chain-HeadOnly :
    (name : List ℕ) (c : Cache) (l : List ℕ)
    → ((e : ℕ) → elem e l ≡ true → (x : Element) × (c.elements e ≡ some x))
    → (o : Option ℕ) × (lookup_chain name c l ≡ some o) × HeadOnly name c l o
unfolding lookup_chain
lookup_chain-HeadOnly name c [] h = (none, refl, refl)
lookup_chain-HeadOnly name c (e ∷ l) h =
    let here = h e (elem-cons e e l ∙ ground arith) in
    let same = same_word name (here.0).word in
    let found : Option ℕ = if same then some e else none in
    (found, rw here.1 (ap some (lookup_loop-head same e l)), (here.0, here.1, refl))

-- Where the invariant holds and the name's key is in the table, cache_lookup finds the first element of the
-- chain if it has that name, and nothing otherwise, whatever stands behind it.
pub cache_lookup-HeadOnly :
    (name : List ℕ) (c : Cache) (k : ℕ)
    → CacheInv c
    → hash_key c.max_cache_size name ≡ some k
    → (o : Option ℕ) × (cache_lookup name c ≡ some o) × HeadOnly name c (c.ht k) o
unfolding cache_lookup
cache_lookup-HeadOnly name c k v h =
    let r = lookup_chain-HeadOnly name c (c.ht k) (λ e m. let l = v.chained k e m in (l.0, l.1)) in
    (r.0, rw h r.1, r.2)

HeadOnly-live :
    (name : List ℕ) (c : Cache) (l : List ℕ) (o : Option ℕ)
    → HeadOnly name c l o
    → (e : ℕ) → o ≡ some e
    → (x : Element) × (c.elements e ≡ some x)
HeadOnly-live name c [] o h e q = cc
HeadOnly-live name c (i ∷ l) o h e q = elim (Bool-cases (same_word name (h.0).word)) [
  | inl same ↦
      let r : some i ≡ some e = sym (rw same at h.2) ∙ q in
      let j : i ≡ e = cc in (h.0, ap c.elements (sym j) ∙ h.1)
  | inr other ↦ let r : none ≡ some e = sym (rw other at h.2) ∙ q in cc
]

-- Both parts of do_server_request keep the invariant, where the name's key is in the table; none of them
-- goes through NULL or to an element that is freed.
pub first_lookup-Keeps :
    (name : List ℕ) (c : Cache) (k : ℕ)
    → CacheInv c
    → hash_key c.max_cache_size name ≡ some k
    → Keeps c (first_lookup name c)
unfolding first_lookup
first_lookup-Keeps name c k v h =
    let r = cache_lookup-HeadOnly name c k v h in
    rw r.1 (
      hit_or-Keeps (some (none, c)) r.0 c v ((none, c), refl, v, refl, λ i. refl)
        (HeadOnly-live name c (c.ht k) r.0 r.2))

pub second_lookup-Keeps :
    (file : File) (c : Cache) (k : ℕ)
    → CacheInv c
    → hash_key c.max_cache_size file.file_name ≡ some k
    → Keeps c (second_lookup file c)
unfolding second_lookup
second_lookup-Keeps file c k v h =
    let r = cache_lookup-HeadOnly file.file_name c k v h in
    rw r.1 (
      hit_or-Keeps (admit file c) r.0 c v (admit-Keeps file c k v h)
        (HeadOnly-live file.file_name c (c.ht k) r.0 r.2))
