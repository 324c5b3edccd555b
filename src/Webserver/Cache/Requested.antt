-- ===== src/Webserver/Cache/Requested.antt =====
-- The states that requests lead the cache of webserver/server_thread.c to.
use ece334operating_system.Prelude.{
  ℕ, ◌+◌, ◌-◌, ◌≤◌, ◌≡◌, refl, true, Option, none, some, List, [], ◌∷◌, ◌==◌, if◌then◌else◌, arith,
  ap, sym, ◌∙◌, inl, inr, Bool-cases, Option-cases, ==→eq,
}
use mathlib.Core.Option.{some-injective}
use ece334operating_system.Threads.Yield.{elem, remove}
use ece334operating_system.Webserver.Cache.{
  File, Element, Cache, cache_init, hash_key, cache_lookup, drop_element, first_lookup,
  second_lookup,
}
use ece334operating_system.Webserver.Cache.Inv.{
  CacheInv, cache_init-CacheInv, counted, counted-CacheInv,
}
use ece334operating_system.Webserver.Cache.Evict.{drop_element-eq}
use ece334operating_system.Webserver.Cache.Sections.{
  ref_of, bump, Keeps, first_lookup-Keeps, second_lookup-Keeps,
}

abbrev pub also : Option ℕ → List ℕ → List ℕ
also none l = l
also (some e) l = e ∷ l

-- The states of the cache that requests lead to, with the elements that requests use: each request looks up
-- its name, looks it up again when it has read the file, and is done with its element in the end.
pub data Requested (max : ℕ) : Cache → List ℕ → Type 0 where
  begin : Requested max (cache_init max) []
  looks_up :
      {c : Cache} {using : List ℕ} (name : List ℕ) (r : Option ℕ × Cache)
      → Requested max c using
      → first_lookup name c ≡ some r
      → Requested max r.1 (also r.0 using)
  looks_again :
      {c : Cache} {using : List ℕ} (file : File) (r : Option ℕ × Cache)
      → Requested max c using
      → second_lookup file c ≡ some r
      → Requested max r.1 (also r.0 using)
  ends :
      {c : Cache} {using : List ℕ} (e : ℕ) (d : Cache)
      → Requested max c using
      → elem e using ≡ true
      → drop_element e c ≡ some d
      → Requested max d (remove e using)

-- A key outside the table ends the program at the first access.
keyless :
    (name : List ℕ) (c : Cache) → hash_key c.max_cache_size name ≡ none → first_lookup name c ≡ none
unfolding first_lookup cache_lookup
keyless name c h = rw h refl

keyless_again :
    (file : File) (c : Cache)
    → hash_key c.max_cache_size file.file_name ≡ none
    → second_lookup file c ≡ none
unfolding second_lookup cache_lookup
keyless_again file c h = rw h refl

keyless_end : (e : ℕ) (c : Cache) → c.elements e ≡ none → drop_element e c ≡ none
unfolding drop_element
keyless_end e c h = rw h refl

-- how often an element is in the list
abbrev pub count : ℕ → List ℕ → ℕ
count i [] = 0
count i (e ∷ l) = if e == i then count i l + 1 else count i l

count-also : (i : ℕ) (o : Option ℕ) (l : List ℕ) → count i (also o l) ≡ bump o i (count i l)
count-also i none l = refl
count-also i (some e) l = refl

count-pos : (e : ℕ) (l : List ℕ) → elem e l ≡ true → 1 ≤ count e l
unfolding elem
count-pos e [] h = cc
count-pos e (j ∷ l) h = elim (Bool-cases (j == e)) [
  | inl this ↦ rw this (omega arith)
  | inr other ↦ let m : elem e l ≡ true = rw other at h in rw other (count-pos e l m)
]

count-remove :
    (e i : ℕ) (l : List ℕ)
    → elem e l ≡ true
    → count i (remove e l) ≡ (if e == i then count i l - 1 else count i l)
unfolding remove elem
count-remove e i [] h = cc
count-remove e i (j ∷ l) h = elim (Bool-cases (j == e)) [
  | inl this ↦ rw this (ground arith)
  | inr other ↦
      let m : elem e l ≡ true = rw other at h in
      let rest = count-remove e i l m in let pos = count-pos e l m in rw other (ground arith)
]

-- The invariant, with the number of users of each element.
abbrev pub Used : Cache → List ℕ → Type 0
Used c using = CacheInv c × ((i : ℕ) → ref_of (c.elements i) ≡ count i using)

Used_at : (c d : Cache) (using : List ℕ) → c ≡ d → Used c using → Used d using
Used_at c d using e u = rw (sym e) u

kept-Used :
    (c : Cache) (o : Option (Option ℕ × Cache)) (r : Option ℕ × Cache) (using : List ℕ)
    → Keeps c o
    → o ≡ some r
    → ((i : ℕ) → ref_of (c.elements i) ≡ count i using)
    → Used r.1 (also r.0 using)
kept-Used c o r using k e f =
    let q : k.0 ≡ r = some-injective _ _ (sym k.1 ∙ e) in
    Used_at (k.0).1 r.1 (also r.0 using) (ap (λ p. p.1) q) (
      k.2,
      λ i.
          k.4 i
          ∙ ap (λ n. bump (k.0).0 i n) (f i)
          ∙ ap (λ p. bump p.0 i (count i using)) q
          ∙ sym (count-also i r.0 using),
    )

-- In every state that requests lead to, the invariant of the cache holds: its size is the sum of the sizes of its
-- elements and at most the limit, and the table and the list hold the same elements. The count of an element
-- is the number of requests that use it, so that an element in use is in the cache.
pub Requested-Used :
    (max : ℕ) (c : Cache) (using : List ℕ)
    → Requested max c using
    → CacheInv c × ((i : ℕ) → ref_of (c.elements i) ≡ count i using)
unfolding cache_init
Requested-Used max c using begin = (cache_init-CacheInv max, λ i. refl)
Requested-Used max c using (looks_up {c = b} name r q e) =
    let v = Requested-Used max b _ q in
    elim (Option-cases (hash_key b.max_cache_size name)) [
      | inl n ↦ let x = keyless name b n in cc
      | inr (k, h) ↦ kept-Used b (first_lookup name b) r _ (first_lookup-Keeps name b k v.0 h) e v.1
    ]
Requested-Used max c using (looks_again {c = b} file r q e) =
    let v = Requested-Used max b _ q in
    elim (Option-cases (hash_key b.max_cache_size file.file_name)) [
      | inl n ↦ let x = keyless_again file b n in cc
      | inr (k, h) ↦
          kept-Used b (second_lookup file b) r _ (second_lookup-Keeps file b k v.0 h) e v.1
    ]
Requested-Used max c using (ends {c = b} {using = u} i d q m e) =
    let v = Requested-Used max b u q in
    elim (Option-cases (b.elements i)) [
      | inl n ↦ let x = keyless_end i b n in cc
      | inr (x, h) ↦
          let y : Element = record x { ref_count = x.ref_count - 1 } in
          let g : counted i y b ≡ d = some-injective _ _ (sym (drop_element-eq i x b h) ∙ e) in
          Used_at (counted i y b) d (remove i u) g
            (counted-CacheInv i (x.ref_count - 1) x v.0 h, λ j. dropped i j x b u h m (v.1 j))
    ]
  where
    dropped :
        (i j : ℕ) (x : Element) (b : Cache) (u : List ℕ)
        → b.elements i ≡ some x
        → elem i u ≡ true
        → ref_of (b.elements j) ≡ count j u
        → ref_of ((counted i (record x { ref_count = x.ref_count - 1 }) b).elements j)
          ≡ count j (remove i u)
    dropped i j x b u h m f = elim (Bool-cases (i == j)) [
      | inl this ↦
          let same : x.ref_count ≡ count j u =
            ap ref_of (sym h ∙ ap b.elements (==→eq i j this)) ∙ f in
          let c = count-remove i j u m in rw this (ap (λ n. n - 1) same ∙ sym (rw this at c))
      | inr other ↦ let c = count-remove i j u m in rw other (f ∙ sym (rw other at c))
    ]
