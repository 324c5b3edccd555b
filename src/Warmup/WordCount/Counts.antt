-- ===== src/Warmup/WordCount/Counts.antt =====
-- The counts of warmup/wc.c: the table counts the words of the text.
use native.Mathlib.Nat.{mod-lt}
use ece334operating_system.Prelude.{
  ℕ, zero, suc, ◌+◌, ◌%◌, ◌<◌, ◌≤◌, ◌≡◌, refl, Bool, true, false, none, some, List, [], ◌∷◌, ◌++◌,
  ◌==◌, if◌then◌else◌, update, arith, ap, sym, ◌∙◌, inl, inr, Bool-cases, same_word, same_word-eq,
  ==→eq, ==→ne, ne→==,
}
use ece334operating_system.Warmup.WordCount.{
  Entry, Table, word_hash, count_chars, init_node, count_behind, count_in, count_word,
  count_scanned, wc_loop, wc_init, output_chain, output_from, wc_output,
}
use ece334operating_system.Warmup.WordCount.Words.{
  pieces, occurrences, EndsInSpace, EndsOpen, scan_word-pieces, scan_word-open,
}

-- The count of a word in what wc_output prints.
abbrev pub printed : List ℕ → List (List ℕ × ℕ) → ℕ
printed w [] = 0
printed w (p ∷ l) = if same_word p.0 w then p.1 + printed w l else printed w l

-- one for the word itself
abbrev pub one_if : Bool → ℕ
one_if true = 1
one_if false = 0

printed-append :
    (w : List ℕ) (k l : List (List ℕ × ℕ)) → printed w (k ++ l) ≡ printed w k + printed w l
printed-append w [] l = omega arith
printed-append w (p ∷ k) l = let a = printed-append w k l in ground (arith, a)

-- The words are the same for strcmp with any third one.
same_word-swap : (v u w : List ℕ) → same_word u v ≡ true → same_word u w ≡ same_word v w
same_word-swap v u w h = ap (λ x. same_word x w) (same_word-eq u v h)

count_behind-printed :
    (v w : List ℕ) (key : ℕ) (l : List Entry)
    → printed w (output_chain (count_behind v key l))
      ≡ printed w (output_chain l) + one_if (same_word v w)
unfolding count_behind output_chain init_node
count_behind-printed v w key [] = elim (Bool-cases (same_word v w)) [
  | inl same ↦ rw same refl
  | inr other ↦ rw other refl
]
count_behind-printed v w key (e ∷ l) = elim (Bool-cases (same_word e.word v)) [
  | inl this ↦
      let q = same_word-swap v e.word w this in
      rw (this, q) (again (same_word v w) e.counts (printed w (output_chain l)))
  | inr other ↦
      let a = count_behind-printed v w key l in
      rw (other, a)
        (behind (same_word e.word w) e.counts (printed w (output_chain l)) (one_if (same_word v w)))
]
  where
    again :
        (b : Bool) (n p : ℕ) → (if b then n + 1 + p else p) ≡ (if b then n + p else p) + one_if b
    again true n p = omega arith
    again false n p = omega arith

    behind :
        (b : Bool) (n p d : ℕ) → (if b then n + (p + d) else p + d) ≡ (if b then n + p else p) + d
    behind true n p d = omega arith
    behind false n p d = omega arith

-- The first element of a chain is treated as the others are.
count_in-eq : (v : List ℕ) (key : ℕ) (l : List Entry) → count_in v key l ≡ count_behind v key l
unfolding count_in count_behind
count_in-eq v key [] = refl
count_in-eq v key (e ∷ l) = refl

output_from-out :
    (a : ℕ → List Entry) (n : ℕ) (l : List Entry) (k i : ℕ)
    → n < i
    → output_from k i (update a n l) ≡ output_from k i a
unfolding output_from
output_from-out a n l zero i h = refl
output_from-out a n l (suc k) i h =
    let ne : (n == i) ≡ false = ne→== n i (omega arith) in
    rw (ne, output_from-out a n l k (i + 1) (omega arith)) refl

-- A change of one chain in the range changes what is printed by as much.
output_from-update :
    (w : List ℕ) (a : ℕ → List Entry) (n : ℕ) (l : List Entry) (d k i : ℕ)
    → printed w (output_chain l) ≡ printed w (output_chain (a n)) + d
    → i ≤ n
    → n < i + k
    → printed w (output_from k i (update a n l)) ≡ printed w (output_from k i a) + d
unfolding output_from
output_from-update w a n l d zero i h lo hi = omega arith
output_from-update w a n l d (suc k) i h lo hi = elim (Bool-cases (n == i)) [
  | inl this ↦
      let q = ==→eq n i this in
      let old : printed w (output_chain (a n)) ≡ printed w (output_chain (a i)) =
        ap (λ j. printed w (output_chain (a j))) q in
      let x = printed-append w (output_chain l) (output_from k (i + 1) a) in
      let y = printed-append w (output_chain (a i)) (output_from k (i + 1) a) in
      rw (this, output_from-out a n l k (i + 1) (omega arith)) (omega arith)
  | inr other ↦
      let ne = ==→ne n i other in
      let rest = output_from-update w a n l d k (i + 1) h (omega arith) (omega arith) in
      let x = printed-append w (output_chain (a i)) (output_from k (i + 1) (update a n l)) in
      let y = printed-append w (output_chain (a i)) (output_from k (i + 1) a) in
      rw other (omega arith)
]

in_range : (n m : ℕ) → n < m → n < 0 + m
in_range n m h = omega arith

below_zero : (n m : ℕ) → n < m → m ≤ 0 → ⊥
below_zero n m h k = omega arith

-- One more word in the table is one more in what is printed.
count_word-printed :
    (v : List ℕ) (t : Table)
    → 0 < t.size
    → (u : Table) × (count_word v t ≡ some u)
      × (u.size ≡ t.size)
      × ((w : List ℕ) → printed w (wc_output u) ≡ printed w (wc_output t) + one_if (same_word v w))
unfolding count_word wc_output
count_word-printed v t h =
    let n = word_hash v % t.size in
    let chain = count_in v n (t.wc_array n) in
    let pos : (t.size == 0) ≡ false = ne→== t.size 0 (omega arith) in
    (
      record t { wc_array = update t.wc_array n chain },
      rw pos refl,
      refl,
      λ w.
          output_from-update w t.wc_array n chain (one_if (same_word v w)) t.size 0
            (ap (λ l. printed w (output_chain l)) (count_in-eq v n (t.wc_array n))
              ∙ count_behind-printed v w n (t.wc_array n))
            (omega arith) (in_range n t.size (mod-lt (word_hash v) h)),
    )

count_scanned-printed :
    (v : List ℕ) (t : Table)
    → 0 < t.size
    → (u : Table) × (count_scanned v t ≡ some u)
      × (u.size ≡ t.size)
      × ((c : ℕ) (s : List ℕ)
          → printed (c ∷ s) (wc_output u)
            ≡ printed (c ∷ s) (wc_output t) + one_if (same_word v (c ∷ s)))
unfolding count_scanned same_word
count_scanned-printed [] t h = (t, refl, refl, λ c s. omega arith)
count_scanned-printed (d ∷ v) t h =
    let r = count_word-printed (d ∷ v) t h in (r.0, r.1, r.2, λ c s. r.3 (c ∷ s))

wc_loop-printed :
    (k : ℕ) (text : List ℕ) (t : Table)
    → 0 < t.size
    → EndsInSpace text
    → count_chars text ≤ k
    → (u : Table) × (wc_loop k text t ≡ some u)
      × (u.size ≡ t.size)
      × ((c : ℕ) (s : List ℕ)
          → printed (c ∷ s) (wc_output u)
            ≡ printed (c ∷ s) (wc_output t) + occurrences (c ∷ s) (pieces text))
unfolding wc_loop
wc_loop-printed k [] t h e f = (t, refl, refl, λ c s. omega arith)
wc_loop-printed zero (b ∷ text) t h e f =
    let r = scan_word-pieces b text e in
    elim (below_zero (count_chars (r.0).1) (count_chars (b ∷ text)) r.4 f) [ ]
wc_loop-printed (suc k) (b ∷ text) t h e f =
    let r = scan_word-pieces b text e in
    let m = count_scanned-printed (r.0).0 t h in
    let n = wc_loop-printed k (r.0).1 m.0 (rw m.2 h) r.3 (omega arith) in
    (
      n.0,
      rw (r.1, m.1) n.1,
      n.2 ∙ m.2,
      λ c s.
          sums (printed (c ∷ s) (wc_output n.0)) (printed (c ∷ s) (wc_output m.0))
            (printed (c ∷ s) (wc_output t)) (occurrences (c ∷ s) (pieces (r.0).1))
            (same_word (r.0).0 (c ∷ s)) (n.3 c s) (m.3 c s)
          ∙ ap (λ l. printed (c ∷ s) (wc_output t) + occurrences (c ∷ s) l) (sym r.2),
    )
  where
    sums :
        (x y z o : ℕ) (b : Bool) → x ≡ y + o → y ≡ z + one_if b → x ≡ z + (if b then o + 1 else o)
    sums x y z o true f g = omega arith
    sums x y z o false f g = omega arith

printed-none : (w : List ℕ) (k i : ℕ) → printed w (output_from k i (λ j. [])) ≡ 0
unfolding output_from output_chain
printed-none w zero i = refl
printed-none w (suc k) i = printed-none w k (i + 1)

pub wc_init-counts :
    (text : List ℕ) (size : ℕ)
    → 0 < size
    → EndsInSpace text
    → (t : Table) × (wc_init text size ≡ some t)
      × ((c : ℕ) (s : List ℕ) → printed (c ∷ s) (wc_output t) ≡ occurrences (c ∷ s) (pieces text))
unfolding wc_init wc_output
wc_init-counts text size h e =
    let start : Table = record { wc_array = λ k. []; size = size } in
    let r = wc_loop-printed (count_chars text) text start h e (omega arith) in
    (
      r.0,
      r.1,
      λ c s.
          r.3 c s
          ∙ ap (λ n. n + occurrences (c ∷ s) (pieces text)) (printed-none (c ∷ s) size 0)
          ∙ omega arith,
    )

wc_loop-open :
    (k : ℕ) (text : List ℕ) (t : Table) → 0 < t.size → EndsOpen text → wc_loop k text t ≡ none
unfolding wc_loop
wc_loop-open zero [] t h e = elim e [ ]
wc_loop-open (suc k) [] t h e = elim e [ ]
wc_loop-open zero (b ∷ text) t h e = refl
wc_loop-open (suc k) (b ∷ text) t h e = elim (scan_word-open b text e) [
  | inl past ↦ rw past refl
  | inr (r, found, rest) ↦
      let m = count_scanned-printed r.0 t h in
      rw (found, m.1) (wc_loop-open k r.1 m.0 (rw m.2 h) rest)
]

pub wc_init-open : (text : List ℕ) (size : ℕ) → 0 < size → EndsOpen text → wc_init text size ≡ none
unfolding wc_init
wc_init-open text size h e =
    wc_loop-open (count_chars text) text (record { wc_array = λ k. []; size = size }) h e
