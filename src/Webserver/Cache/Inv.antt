-- ===== src/Webserver/Cache/Inv.antt =====
-- The invariant of the cache of webserver/server_thread.c, and that each of its operations keeps it.
use ece334operating_system.Prelude.{
  ℕ, ◌+◌, ◌-◌, ◌<◌, ◌≤◌, ◌≡◌, refl, true, false, Option, none, some, List, ◌==◌, if◌then◌else◌,
  update, arith, ap, sym, ◌∙◌, inl, inr, Bool-cases, ==→eq, ==→ne,
}
use ece334operating_system.Threads.Yield.{elem, remove}
use ece334operating_system.Threads.Lists.{NoDup, elem-remove, NoDup-remove}
use ece334operating_system.Webserver.Cache.{Element, Cache, cache_init}
use ece334operating_system.Webserver.Cache.Lists.{size_of, total, total-same, total-remove}

-- The elements are those of the list and those of the chains, each once and in the chain of its key; and the
-- size of the cache is the sum of their sizes, and at most the limit.
pub record CacheInv (c : Cache) : Type 0 where
  pub live : (e : ℕ) → elem e c.lq ≡ true → (x : Element) × (c.elements e ≡ some x)
  pub listed : (e : ℕ) (x : Element) → c.elements e ≡ some x → elem e c.lq ≡ true
  pub chained :
      (k e : ℕ) → elem e (c.ht k) ≡ true → (x : Element) × (c.elements e ≡ some x) × (x.key ≡ k)
  pub in_chain : (e : ℕ) (x : Element) → c.elements e ≡ some x → elem e (c.ht x.key) ≡ true
  pub fresh : (e : ℕ) (x : Element) → c.elements e ≡ some x → e < c.next_element
  pub once : NoDup c.lq
  pub chain_once : (k : ℕ) → NoDup (c.ht k)
  pub size_eq : c.current_size ≡ total c.elements c.lq
  pub size_le : c.current_size ≤ c.max_cache_size

pub cache_init-CacheInv : (m : ℕ) → CacheInv (cache_init m)
unfolding cache_init elem
cache_init-CacheInv m = record {
  live = λ e h. cc;
  listed = λ e x h. cc;
  chained = λ k e h. cc;
  in_chain = λ e x h. cc;
  fresh = λ e x h. cc;
  once = tt;
  chain_once = λ k. tt;
  size_eq = refl;
  size_le = omega arith;
}

-- the number of requests that use an element
abbrev pub counted : ℕ → Element → Cache → Cache
counted e x c = record c { elements = update c.elements e (some x) }

abbrev pub key_of : Option Element → ℕ
key_of none = 0
key_of (some y) = y.key

-- The count of an element does not matter to the invariant.
pub counted-CacheInv :
    {c : Cache} (e n : ℕ) (x : Element)
    → CacheInv c
    → c.elements e ≡ some x
    → CacheInv (counted e (record x { ref_count = n }) c)
counted-CacheInv {c} e n x v h = record {
  live = λ i k. elim (Bool-cases (e == i)) [
    | inl this ↦ (record x { ref_count = n }, rw this refl)
    | inr other ↦ let l = v.live i k in (l.0, rw other l.1)
  ];
  listed = λ i y k. elim (Bool-cases (e == i)) [
    | inl this ↦ v.listed i x (ap c.elements (sym (==→eq e i this)) ∙ h)
    | inr other ↦ v.listed i y (rw other at k)
  ];
  chained = λ k i m. elim (Bool-cases (e == i)) [
    | inl this ↦
        let l = v.chained k i m in
        let same : some l.0 ≡ some x = sym l.1 ∙ ap c.elements (sym (==→eq e i this)) ∙ h in
        let key : x.key ≡ k = ap (λ o. key_of o) (sym same) ∙ l.2 in
        (record x { ref_count = n }, rw this refl, key)
    | inr other ↦ let l = v.chained k i m in (l.0, rw other l.1, l.2)
  ];
  in_chain = λ i y k. elim (Bool-cases (e == i)) [
    | inl this ↦
        let same : some (record x { ref_count = n }) ≡ some y = rw this at k in
        let key : x.key ≡ y.key = ap (λ o. key_of o) same in
        ap (λ j. elem i (c.ht j)) (sym key)
        ∙ v.in_chain i x (ap c.elements (sym (==→eq e i this)) ∙ h)
    | inr other ↦ v.in_chain i y (rw other at k)
  ];
  fresh = λ i y k. elim (Bool-cases (e == i)) [
    | inl this ↦ v.fresh i x (ap c.elements (sym (==→eq e i this)) ∙ h)
    | inr other ↦ v.fresh i y (rw other at k)
  ];
  once = v.once;
  chain_once = v.chain_once;
  size_eq =
      v.size_eq
      ∙ total-same c.elements (update c.elements e (some (record x { ref_count = n }))) c.lq (λ i k.
        elim (Bool-cases (e == i)) [
          | inl this ↦ rw this (ap size_of (ap c.elements (sym (==→eq e i this)) ∙ h))
          | inr other ↦ rw other refl
        ]);
  size_le = v.size_le;
}

-- Another order of the list does not either.
pub moved-CacheInv :
    {c : Cache} (l : List ℕ)
    → CacheInv c
    → ((i : ℕ) → elem i l ≡ elem i c.lq)
    → NoDup l
    → total c.elements l ≡ total c.elements c.lq
    → CacheInv (record c { lq = l })
moved-CacheInv {c} l v same once t = record {
  live = λ e h. v.live e (sym (same e) ∙ h);
  listed = λ e x h. same e ∙ v.listed e x h;
  chained = v.chained;
  in_chain = v.in_chain;
  fresh = v.fresh;
  once = once;
  chain_once = v.chain_once;
  size_eq = v.size_eq ∙ sym t;
  size_le = v.size_le;
}

-- The cache after deleteHash and deleteSwapNode on an element.
abbrev pub evicted : ℕ → Element → Cache → Cache
evicted e x c = record c {
  current_size = c.current_size - x.sizeofword;
  ht = update c.ht x.key (remove e (c.ht x.key));
  lq = remove e c.lq;
  elements = update c.elements e none;
}

-- The element leaves the chains, and no other does.
evicted-elem :
    {c : Cache} (e : ℕ) (x : Element) (k i : ℕ)
    → CacheInv c
    → c.elements e ≡ some x
    → elem i ((evicted e x c).ht k) ≡ (if e == i then false else elem i (c.ht k))
evicted-elem {c} e x k i v h = elim (Bool-cases (x.key == k)) [
  | inl this ↦ rw this (
      elem-remove i e (c.ht x.key) (v.chain_once x.key)
      ∙ ap (λ j. if e == i then false else elem i (c.ht j)) (==→eq x.key k this))
  | inr other ↦ rw other (elim (Bool-cases (e == i)) [
    | inl same ↦ elim (Bool-cases (elem i (c.ht k))) [
      | inl there ↦
          let l = v.chained k i there in
          let q : some x ≡ some l.0 = sym h ∙ ap c.elements (==→eq e i same) ∙ l.1 in
          let key : x.key ≡ k = ap (λ o. key_of o) q ∙ l.2 in elim (==→ne x.key k other key) [ ]
      | inr gone ↦ gone ∙ rw same refl
    ]
    | inr ne ↦ rw ne refl
  ])
]

pub evicted-CacheInv :
    {c : Cache} (e : ℕ) (x : Element)
    → CacheInv c
    → c.elements e ≡ some x
    → CacheInv (evicted e x c) × ((evicted e x c).current_size + x.sizeofword ≡ c.current_size)
evicted-CacheInv {c} e x v h =
    let there = v.listed e x h in
    let off : (i : ℕ) → elem i (remove e c.lq) ≡ (if e == i then false else elem i c.lq) =
      λ i. elem-remove i e c.lq v.once in
    let sum : total c.elements (remove e c.lq) + x.sizeofword ≡ total c.elements c.lq =
      ap (λ o. total c.elements (remove e c.lq) + size_of o) (sym h)
      ∙ total-remove c.elements e c.lq there in
    let rest : total (update c.elements e none) (remove e c.lq) ≡ total c.elements (remove e c.lq) =
      total-same (update c.elements e none) c.elements (remove e c.lq) (λ i k.
        elim (Bool-cases (e == i)) [
          | inl this ↦ let g = off i in let b : elem i (remove e c.lq) ≡ false = rw this at g in cc
          | inr other ↦ rw other refl
        ]) in
    let was = v.size_eq in
    (
      record {
        live = λ i k. elim (Bool-cases (e == i)) [
          | inl this ↦ let g = off i in let b : elem i (remove e c.lq) ≡ false = rw this at g in cc
          | inr other ↦
              let g : elem i (remove e c.lq) ≡ elem i c.lq = rw other at (off i) in
              let l = v.live i (sym g ∙ k) in (l.0, rw other l.1)
        ];
        listed = λ i y k. elim (Bool-cases (e == i)) [
          | inl this ↦ let b : none ≡ some y = rw this at k in cc
          | inr other ↦ off i ∙ rw other (v.listed i y (rw other at k))
        ];
        chained = λ k i m. elim (Bool-cases (e == i)) [
          | inl this ↦
              let b : elem i ((evicted e x c).ht k) ≡ false =
                evicted-elem e x k i v h ∙ rw this refl in
              cc
          | inr other ↦
              let g : elem i ((evicted e x c).ht k) ≡ elem i (c.ht k) =
                evicted-elem e x k i v h ∙ rw other refl in
              let l = v.chained k i (sym g ∙ m) in (l.0, rw other l.1, l.2)
        ];
        in_chain = λ i y k. elim (Bool-cases (e == i)) [
          | inl this ↦ let b : none ≡ some y = rw this at k in cc
          | inr other ↦ evicted-elem e x y.key i v h ∙ rw other (v.in_chain i y (rw other at k))
        ];
        fresh = λ i y k. elim (Bool-cases (e == i)) [
          | inl this ↦ let b : none ≡ some y = rw this at k in cc
          | inr other ↦ v.fresh i y (rw other at k)
        ];
        once = NoDup-remove e c.lq v.once;
        chain_once = λ k. elim (Bool-cases (x.key == k)) [
          | inl this ↦ rw this (NoDup-remove e (c.ht x.key) (v.chain_once x.key))
          | inr other ↦ rw other (v.chain_once k)
        ];
        size_eq = rest-size c.current_size x.sizeofword sum was ∙ sym rest;
        size_le = sub_le c.current_size x.sizeofword v.size_le;
      },
      size_back c.current_size x.sizeofword _ _ sum was,
    )
  where
    rest-size : (n s : ℕ) {a b : ℕ} → a + s ≡ b → n ≡ b → n - s ≡ a
    rest-size n s h k = omega arith

    sub_le : (n s : ℕ) {m : ℕ} → n ≤ m → n - s ≤ m
    sub_le n s h = omega arith

    size_back : (n s a b : ℕ) → a + s ≡ b → n ≡ b → n - s + s ≡ n
    size_back n s a b h k = omega arith
