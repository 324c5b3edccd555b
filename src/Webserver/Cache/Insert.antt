-- ===== src/Webserver/Cache/Insert.antt =====
-- cache_insert of webserver/server_thread.c and the invariant of the cache.
use ece334operating_system.Prelude.{
  ℕ, ◌+◌, ◌≤◌, ◌≡◌, refl, true, false, none, some, List, ◌==◌, if◌then◌else◌, update, arith, ap,
  sym, ◌∙◌, inl, inr, Bool-cases, Option-cases, ==→eq, eq→==,
}
use ece334operating_system.Threads.Yield.{elem}
use ece334operating_system.Threads.Lists.{elem-pushback, NoDup-pushback}
use ece334operating_system.Webserver.Cache.{
  File, Element, Cache, pushback_lru, append_chain, insert_element,
}
use ece334operating_system.Webserver.Cache.Lists.{
  pushback_lru-eq, append_chain-eq, size_of, total, total-same, total-push,
}
use ece334operating_system.Webserver.Cache.Inv.{CacheInv, key_of}

-- The element goes into the chain of its key, and no other chain changes.
new_chain :
    (ht : ℕ → List ℕ) (k e j i : ℕ)
    → elem i (update ht k (append_chain (ht k) e) j)
      ≡ (if k == j then if e == i then true else elem i (ht j) else elem i (ht j))
new_chain ht k e j i = elim (Bool-cases (k == j)) [
  | inl this ↦ rw this (
      ap (elem i) (append_chain-eq (ht k) e)
      ∙ elem-pushback i e (ht k)
      ∙ ap (λ n. if e == i then true else elem i (ht n)) (==→eq k j this))
  | inr other ↦ rw other refl
]

new_lru : (l : List ℕ) (e i : ℕ) → elem i (pushback_lru l e) ≡ (if e == i then true else elem i l)
new_lru l e i = ap (elem i) (pushback_lru-eq l e) ∙ elem-pushback i e l

-- cache_insert, with the size that do_server_request has added before.
pub insert_element-CacheInv :
    {c : Cache} (k : ℕ) (file : File)
    → CacheInv c
    → c.current_size + file.file_size ≤ c.max_cache_size
    → CacheInv (insert_element k file (record c { current_size = c.current_size + file.file_size }))
unfolding insert_element
insert_element-CacheInv {c} k file v h =
    let e = c.next_element in
    let unused : c.elements e ≡ none = elim (Option-cases (c.elements e)) [
      | inl n ↦ n
      | inr (x, n) ↦ let lt = v.fresh e x n in ground arith
    ] in
    let out : elem e c.lq ≡ false = elim (Bool-cases (elem e c.lq)) [
      | inl there ↦ let l = v.live e there in cc
      | inr gone ↦ gone
    ] in
    let out_chain : (j : ℕ) → elem e (c.ht j) ≡ false = λ j. elim (Bool-cases (elem e (c.ht j))) [
      | inl there ↦ let l = v.chained j e there in cc
      | inr gone ↦ gone
    ] in
    let x : Element = record {
      word = file.file_name;
      sizeofword = file.file_size;
      key = k;
      ref_count = 0;
      data_of = file;
    } in
    record {
      live = λ i m. elim (Bool-cases (e == i)) [
        | inl this ↦ (x, rw this refl)
        | inr other ↦
            let l = v.live i (sym (new_lru c.lq e i ∙ rw other refl) ∙ m) in (l.0, rw other l.1)
      ];
      listed = λ i y m. elim (Bool-cases (e == i)) [
        | inl this ↦ new_lru c.lq e i ∙ rw this refl
        | inr other ↦ new_lru c.lq e i ∙ rw other (v.listed i y (rw other at m))
      ];
      chained = λ j i m. elim (Bool-cases (e == i)) [
        | inl this ↦ elim (Bool-cases (k == j)) [
          | inl key ↦ (x, rw this refl, ==→eq k j key)
          | inr apart ↦
              let b : elem i (c.ht j) ≡ true = sym (new_chain c.ht k e j i ∙ rw apart refl) ∙ m in
              let o : elem i (c.ht j) ≡ false =
                ap (λ n. elem n (c.ht j)) (sym (==→eq e i this)) ∙ out_chain j in
              cc
        ]
        | inr other ↦
            let b : elem i (c.ht j) ≡ true =
              sym (new_chain c.ht k e j i ∙ ground (arith, other)) ∙ m in
            let l = v.chained j i b in (l.0, rw other l.1, l.2)
      ];
      in_chain = λ i y m. elim (Bool-cases (e == i)) [
        | inl this ↦
            let same : some x ≡ some y = rw this at m in
            let key : k ≡ y.key = ap (λ o. key_of o) same in
            new_chain c.ht k e y.key i ∙ rw (eq→== k y.key key, this) refl
        | inr other ↦
            let b : elem i (c.ht y.key) ≡ true = v.in_chain i y (rw other at m) in
            new_chain c.ht k e y.key i ∙ ground (arith, b)
      ];
      fresh = λ i y m. elim (Bool-cases (e == i)) [
        | inl this ↦ let q = ==→eq e i this in omega arith
        | inr other ↦ let lt = v.fresh i y (rw other at m) in omega arith
      ];
      once = rw (pushback_lru-eq c.lq e) (NoDup-pushback e c.lq v.once out);
      chain_once = λ j. elim (Bool-cases (k == j)) [
        | inl this ↦
            rw (this, append_chain-eq (c.ht k) e)
              (NoDup-pushback e (c.ht k) (v.chain_once k) (out_chain k))
        | inr other ↦ rw other (v.chain_once j)
      ];
      size_eq =
          let old : total (update c.elements e (some x)) c.lq ≡ total c.elements c.lq =
            total-same (update c.elements e (some x)) c.elements c.lq (λ i m.
              elim (Bool-cases (e == i)) [
                | inl this ↦ let q = ap (λ n. elem n c.lq) (==→eq e i this) in cc
                | inr other ↦ rw other refl
              ]) in
          let new : size_of (update c.elements e (some x) e) ≡ file.file_size =
            rw (eq→== e e refl) refl in
          let sum = total-push (update c.elements e (some x)) c.lq e in
          let was = v.size_eq in
          rw (pushback_lru-eq c.lq e) (sizes _ _ _ _ _ _ was (sym old) sum new);
      size_le = h;
    }
  where
    sizes : (n t u w s z : ℕ) → n ≡ t → t ≡ u → w ≡ u + z → z ≡ s → n + s ≡ w
    sizes n t u w s z a b c d = omega arith
