-- ===== src/Webserver/Cache/Evict.antt =====
-- cache_evict of webserver/server_thread.c and the use of an element: what they do to the cache.
use ece334operating_system.Prelude.{
  ℕ, ◌+◌, ◌-◌, ◌≤◌, ◌≡◌, ◌≢◌, refl, true, false, Option, none, some, List, [], ◌∷◌, ◌++◌, ◌==◌,
  ◌>>=◌, leb, update, arith, ap, ◌∙◌, ◌⊎◌, inl, inr, Bool-cases, ==→eq, ==→ne,
}
use ece334operating_system.Threads.{pushback_rl}
use ece334operating_system.Threads.Yield.{elem, remove}
use ece334operating_system.Threads.Lists.{elem-cons}
use ece334operating_system.Webserver.Cache.{
  Element, Cache, delete_swap_node, delete_hash, find_unused_node, evict_node, evict_found,
  cache_evict, use_element, drop_element,
}
use ece334operating_system.Webserver.Cache.Lists.{
  swap_in-remove, swap_in-move, delete_chain-remove, total-push, total-remove, move-elem,
}
use ece334operating_system.Webserver.Cache.Inv.{
  CacheInv, counted, counted-CacheInv, moved-CacheInv, evicted, evicted-CacheInv,
}

-- The element has one more user and is the most recent one.
abbrev pub used : ℕ → Element → Cache → Cache
used e x c = record (counted e (record x { ref_count = x.ref_count + 1 }) c) {
  lq = pushback_rl (remove e c.lq) e;
}

pub use_element-eq :
    (e : ℕ) (x : Element) (c : Cache)
    → CacheInv c
    → c.elements e ≡ some x
    → use_element e c ≡ some (used e x c)
unfolding use_element delete_swap_node
use_element-eq e x c v h = rw (h, swap_in-move e c.lq v.once (v.listed e x h)) refl

pub used-CacheInv :
    (e : ℕ) (x : Element) (c : Cache) → CacheInv c → c.elements e ≡ some x → CacheInv (used e x c)
used-CacheInv e x c v h =
    let there = v.listed e x h in
    let m = move-elem e c.lq v.once there in
    let w = counted-CacheInv e (x.ref_count + 1) x v h in
    let f = update c.elements e (some (record x { ref_count = x.ref_count + 1 })) in
    moved-CacheInv (pushback_rl (remove e c.lq) e) w m.0 m.1
      (total-push f (remove e c.lq) e ∙ total-remove f e c.lq there)

pub drop_element-eq :
    (e : ℕ) (x : Element) (c : Cache)
    → c.elements e ≡ some x
    → drop_element e c ≡ some (counted e (record x { ref_count = x.ref_count - 1 }) c)
unfolding drop_element
drop_element-eq e x c h = rw h refl

-- deleteHash and deleteSwapNode find what they take out.
evict_node-eq :
    (amount e : ℕ) (x : Element) (c : Cache)
    → CacheInv c
    → c.elements e ≡ some x
    → leb amount x.sizeofword ≡ true
    → evict_node amount e x c ≡ some (true, evicted e x c)
unfolding evict_node delete_hash delete_swap_node
evict_node-eq amount e x c v h enough =
    rw
      (
        enough,
        h,
        delete_chain-remove e (c.ht x.key) (v.in_chain e x h),
        swap_in-remove e c.lq v.once (v.listed e x h),
      )
      refl

-- a request uses the element
abbrev pub InUse : Cache → ℕ → Type 0
InUse c e = (x : Element) × (c.elements e ≡ some x) × (x.ref_count ≢ 0)

abbrev pub AllInUse : Cache → List ℕ → Type 0
AllInUse c [] = Unit
AllInUse c (e ∷ l) = InUse c e × AllInUse c l

-- The first element of the list that no request uses, or there is none.
abbrev pub FirstUnused : Cache → List ℕ → Option ℕ → Type 0
FirstUnused c l none = AllInUse c l
FirstUnused c l (some e) =
    (older : List ℕ) × (newer : List ℕ) × (x : Element) × (l ≡ older ++ (e ∷ newer))
    × AllInUse c older
    × (c.elements e ≡ some x)
    × (x.ref_count ≡ 0)

find_unused_node-FirstUnused :
    (c : Cache) (l : List ℕ)
    → ((e : ℕ) → elem e l ≡ true → (x : Element) × (c.elements e ≡ some x))
    → (o : Option ℕ) × (find_unused_node c l ≡ some o) × FirstUnused c l o
unfolding find_unused_node
find_unused_node-FirstUnused c [] h = (none, refl, tt)
find_unused_node-FirstUnused c (e ∷ l) h =
    let here = h e (elem-cons e e l ∙ ground arith) in
    let rest =
      find_unused_node-FirstUnused c l (λ i k. h i (elem-cons i e l ∙ ground (arith, k))) in
    elim (Bool-cases (here.0.ref_count == 0)) [
      | inl free ↦ (
        some e,
        rw (here.1, free) refl,
        ([], l, here.0, refl, tt, here.1, ==→eq here.0.ref_count 0 free),
      )
      | inr busy ↦
          let busy_one : InUse c e = (here.0, here.1, ==→ne here.0.ref_count 0 busy) in
          (rest.0, rw (here.1, busy) rest.1, later e l busy_one rest.0 rest.2)
    ]
  where
    later :
        (e : ℕ) (l : List ℕ)
        → InUse c e
        → (o : Option ℕ) → FirstUnused c l o
        → FirstUnused c (e ∷ l) o
    later e l u none f = (u, f)
    later e l u (some i) f = (e ∷ f.0, f.1, f.2, ap (λ k. e ∷ k) f.3, (u, f.4), f.5, f.6)

-- What cache_evict does: nothing, or it takes out the first unused element.
abbrev pub Evicts : ℕ → Cache → Type 0
Evicts amount c =
    (cache_evict amount c ≡ some (false, c))
    ⊎ ((e : ℕ) × (older : List ℕ) × (newer : List ℕ) × (x : Element) × (c.lq ≡ older ++ (e ∷ newer))
        × AllInUse c older
        × (c.elements e ≡ some x)
        × (x.ref_count ≡ 0)
        × (amount ≤ x.sizeofword)
        × (cache_evict amount c ≡ some (true, evicted e x c))
        × CacheInv (evicted e x c)
        × ((evicted e x c).current_size + x.sizeofword ≡ c.current_size))

pub cache_evict-Evicts : (amount : ℕ) (c : Cache) → CacheInv c → Evicts amount c
unfolding cache_evict evict_found evict_node
cache_evict-Evicts amount c v =
    let f = find_unused_node-FirstUnused c c.lq v.live in by_found f.0 f.1 f.2
  where
    by_found :
        (o : Option ℕ) → find_unused_node c c.lq ≡ some o → FirstUnused c c.lq o → Evicts amount c
    by_found none e f = inl (rw e refl)
    by_found (some i) e f = elim (Bool-cases (leb amount (f.2).sizeofword)) [
      | inl enough ↦ inr (
        i,
        f.0,
        f.1,
        f.2,
        f.3,
        f.4,
        f.5,
        f.6,
        ground arith,
        ap (λ o. o >>= λ p. evict_found amount p c) e
            ∙ ap (λ o. o >>= λ x. evict_node amount i x c) f.5
            ∙ evict_node-eq amount i f.2 c v f.5 enough,
        (evicted-CacheInv i f.2 v f.5).0,
        (evicted-CacheInv i f.2 v f.5).1,
      )
      | inr little ↦ inl (
          ap (λ o. o >>= λ p. evict_found amount p c) e
          ∙ ap (λ o. o >>= λ x. evict_node amount i x c) f.5
          ∙ rw little refl)
    ]
