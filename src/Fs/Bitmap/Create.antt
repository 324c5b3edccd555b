-- ===== src/Fs/Bitmap/Create.antt =====
-- bitmap_create of fs/bitmap.c: a new map is valid and empty.
use ece334operating_system.Prelude.{
  ℕ, zero, suc, ◌+◌, ◌-◌, ◌*◌, ◌/◌, ◌%◌, ◌^◌, ◌<◌, ◌≡◌, refl, Bool, true, false, ◌&&◌, ◌||◌, Option,
  some, inl, inr, arith, ◌==◌, ltb, leb, Bool-cases, ◌∙◌,
}
use mathlib.Core.Path.{subst₂}
use ece334operating_system.Prelude.Bits.{test-zero}
use ece334operating_system.Fs.Bitmap.{
  Bitmap, bitmap_create, mark_leftover, divroundup, bitmap_nr_allocated,
}
use ece334operating_system.Fs.Bitmap.Bits.{
  is_set, IsValid, set_one, set_one_lt, is_set-set_one, nbits-set_one, divroundup_lem,
}
use ece334operating_system.Fs.Bitmap.Alloc.{set_one_at}
use ece334operating_system.Fs.Bitmap.Count.{count_below, nr_allocated-count}

-- The bytes stay bytes, the size stays, and the bits from `from` up to `to` are added.
record Marked (b : Bitmap) (from to : ℕ) (b' : Bitmap) : Type 0 where
  bytes : (k : ℕ) → b'.v k < 256
  nbits : b'.nbits ≡ b.nbits
  bits : (j : ℕ) → is_set b' j ≡ ((leb from j && ltb j to) || is_set b j)

mark_leftover_lem :
    (k ix j : ℕ) (b : Bitmap)
    → ((k : ℕ) → b.v k < 256)
    → j + k ≡ 8
    → Marked b (ix * 8 + j) (ix * 8 + 8) (mark_leftover k ix j b)
unfolding mark_leftover
mark_leftover_lem zero ix j b bytes e = record {
  bytes = bytes;
  nbits = refl;
  bits = λ i. ground arith;
}
mark_leftover_lem (suc k) ix j b bytes e =
    let b' = set_one b (ix * 8 + j) in
    let rest : Marked b' (ix * 8 + (j + 1)) (ix * 8 + 8) (mark_leftover k ix (j + 1) b') =
      mark_leftover_lem k ix (j + 1) b' (set_one_lt b bytes (ix * 8 + j)) (omega arith) in
    rw (set_one_at b ix j (omega arith)) (record {
      bytes = rest.bytes;
      nbits = rest.nbits ∙ nbits-set_one b (ix * 8 + j);
      bits = λ i. ground (arith, rest.bits i, is_set-set_one b bytes (ix * 8 + j) i);
    })

-- A new map of size `n`: valid, of that size, every bit in range clear, none allocated.
pub record IsFresh (n : ℕ) (b : Bitmap) : Type 0 where
  pub valid : IsValid b
  pub nbits : b.nbits ≡ n
  pub clear : (j : ℕ) → j < n → is_set b j ≡ false
  pub empty : bitmap_nr_allocated b ≡ 0

abbrev pub Creates : ℕ → Option (Option Bitmap) → Type 0
Creates n (some (some b)) = IsFresh n b
Creates n _ = ⊥

abbrev zeros : ℕ → Bitmap
zeros n = record { nbits = n; v = λ i. 0 }

is_set-zeros : (n i : ℕ) → is_set (zeros n) i ≡ false
is_set-zeros n i = test-zero (i % 8) (omega arith)

pub count_below_none :
    (n : ℕ) (p : ℕ → Bool) → ((j : ℕ) → j < n → p j ≡ false) → count_below n p ≡ 0
unfolding count_below
count_below_none zero p h = refl
count_below_none (suc n) p h =
    ground (arith, h n (omega arith), count_below_none n p (λ j lt. h j (omega arith)))

IsFresh-of :
    (n : ℕ) (b : Bitmap) → n < 2 ^ 31 → Marked (zeros n) n (8 * divroundup n 8) b → IsFresh n b
IsFresh-of n b h m = record {
  valid = record {
    bytes = m.bytes;
    small = omega (arith, m.nbits);
    leftover = λ j lo hi. ground (arith, m.bits j, m.nbits);
  };
  nbits = m.nbits;
  clear = clear;
  empty = nr_allocated-count b ∙ rw m.nbits (count_below_none n (is_set b) clear);
}
  where
    clear : (j : ℕ) → j < n → is_set b j ≡ false
    clear j lt = ground (arith, m.bits j, is_set-zeros n j)

-- The loop over the leftover bits starts at the size of the map and ends at its last word.
leftover_lem :
    (n w : ℕ)
    → n / 8 < w
    → w ≡ (n + 7) / 8
    → Marked
        (zeros n)
        n
        (8 * w)
        (mark_leftover (8 - (n - (w - 1) * 8)) (w - 1) (n - (w - 1) * 8) (zeros n))
leftover_lem n w more e =
    let o = n - (w - 1) * 8 in
    let from : (w - 1) * 8 + o ≡ n = omega arith in
    let to : (w - 1) * 8 + 8 ≡ 8 * w = omega arith in
    subst₂ (λ a b. Marked (zeros n) a b (mark_leftover (8 - o) (w - 1) o (zeros n))) from to
      (mark_leftover_lem (8 - o) (w - 1) o (zeros n) (λ k. omega arith) (omega arith))

-- With memory at hand, bitmap_create of fewer than 2^31 bits returns a fresh map.
pub bitmap_create-Creates : (n : ℕ) → n < 2 ^ 31 → Creates n (bitmap_create true true n)
unfolding bitmap_create
bitmap_create-Creates n h = elim (Bool-cases (ltb (n / 8) (divroundup n 8))) [
  | inl more ↦
      rw (more, test more)
        (IsFresh-of n _ h (leftover_lem n (divroundup n 8) (ground arith) (divroundup_lem n h)))
  | inr exact ↦ rw exact (
      IsFresh-of n _ h (record {
        bytes = λ k. omega arith;
        nbits = refl;
        bits = λ j. ground (arith, divroundup_lem n h);
      }))
]
  where
    test :
        ltb (n / 8) (divroundup n 8) ≡ true
        → ((n / 8 == divroundup n 8 - 1)
            && (ltb 0 (n - (divroundup n 8 - 1) * 8) && ltb (n - (divroundup n 8 - 1) * 8) 8))
          ≡ true
    test more = ground (arith, divroundup_lem n h)
