-- ===== src/Fs/Bitmap/Count.antt =====
-- bitmap_nr_allocated of fs/bitmap.c, against a count of the set bits.
use ece334operating_system.Prelude.{
  ℕ, zero, suc, ◌+◌, ◌≤◌, ◌<◌, ◌≡◌, refl, Bool, true, false, inl, inr, arith, ◌==◌, if◌then◌else◌,
  Bool-cases, ap,
}
use native.Mathlib.Numerals.{add-one}
use ece334operating_system.Fs.Bitmap.{Bitmap, bitmap_nr_allocated, nr_from}
use ece334operating_system.Fs.Bitmap.Bits.{is_set, is_set-isset}
use ece334operating_system.Fs.Bitmap.Mark.{Flipped}

-- the numbers below `n` at which `p` holds
unfoldable pub count_below : ℕ → (ℕ → Bool) → ℕ
count_below zero p = 0
count_below (suc n) p = count_below n p + (if p n then 1 else 0)

count_below_le : (n : ℕ) (p : ℕ → Bool) → count_below n p ≤ n
unfolding count_below
count_below_le zero p = omega arith
count_below_le (suc n) p = ground (arith, count_below_le n p)

count_below_step :
    (n : ℕ) (p : ℕ → Bool) → count_below (n + 1) p ≡ count_below n p + (if p n then 1 else 0)
unfolding count_below
count_below_step n p = rw add-one

nr_from_lem :
    (k i nr n : ℕ) (b : Bitmap)
    → i + k ≡ n
    → nr_from k i nr b + count_below i (is_set b) ≡ nr + count_below n (is_set b)
unfolding nr_from
nr_from_lem zero i nr n b e = ap (λ m. nr + count_below m (is_set b)) (omega arith)
nr_from_lem (suc k) i nr n b e = ground (
  arith,
  is_set-isset b i,
  count_below_step i (is_set b),
  nr_from_lem k (i + 1) (if is_set b i then nr + 1 else nr) n b (omega arith),
)

pub nr_allocated-count : (b : Bitmap) → bitmap_nr_allocated b ≡ count_below b.nbits (is_set b)
unfolding bitmap_nr_allocated count_below
nr_allocated-count b = omega (arith, nr_from_lem b.nbits 0 0 b.nbits b (omega arith))

pub nr_allocated_le : (b : Bitmap) → bitmap_nr_allocated b ≤ b.nbits
nr_allocated_le b = rw (nr_allocated-count b) (count_below_le b.nbits (is_set b))

-- Changing a predicate at one place.
pub count_below_same :
    (n : ℕ) (p q : ℕ → Bool) → ((j : ℕ) → j < n → q j ≡ p j) → count_below n q ≡ count_below n p
unfolding count_below
count_below_same zero p q h = refl
count_below_same (suc n) p q h =
    ground (arith, count_below_same n p q (λ j lt. h j (omega arith)), h n (omega arith))

count_below_flip :
    (n i : ℕ) (p q : ℕ → Bool)
    → i < n
    → p i ≡ false
    → ((j : ℕ) → q j ≡ (if i == j then true else p j))
    → count_below n q ≡ count_below n p + 1
unfolding count_below
count_below_flip zero i p q lt e h = absurd (omega arith)
count_below_flip (suc n) i p q lt e h = elim (Bool-cases (i == n)) [
  | inl here ↦ ground (arith, h n, count_below_same n p q (λ j below. ground (arith, h j)))
  | inr other ↦ ground (arith, h n, count_below_flip n i p q (ground arith) e h)
]

-- Setting a clear bit adds one to the number of allocated bits.
pub nr_allocated_set :
    {b b' : Bitmap} {i : ℕ}
    → Flipped b i true b'
    → bitmap_nr_allocated b' ≡ bitmap_nr_allocated b + 1
nr_allocated_set {b} {b'} {i} f =
    rw (nr_allocated-count b', nr_allocated-count b, f.nbits)
      (count_below_flip b.nbits i (is_set b) (is_set b') f.in_range f.before f.after)

-- Clearing a set bit takes one from the number of allocated bits.
pub nr_allocated_clear :
    {b b' : Bitmap} {i : ℕ}
    → Flipped b i false b'
    → bitmap_nr_allocated b ≡ bitmap_nr_allocated b' + 1
nr_allocated_clear {b} {b'} {i} f =
    rw (nr_allocated-count b', nr_allocated-count b, f.nbits)
      (count_below_flip b.nbits i (is_set b') (is_set b) f.in_range (ground (arith, f.after i))
        (λ j. ground (arith, f.after j, f.before)))
