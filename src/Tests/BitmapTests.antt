-- ===== src/Tests/BitmapTests.antt =====
-- fs/bitmap.c at a map of ten bits.
use ece334operating_system.Prelude.{
  ℕ, ◌≤◌, ◌<◌, ◌≡◌, refl, true, ◌||◌, some, arith, ltb, ◌==◌, if◌then◌else◌,
}
use mathlib.Core.Option
use ece334operating_system.Prelude.Bits.{checked, checked_at}
use ece334operating_system.Prelude.Cint.{Ret, ok}
use ece334operating_system.Fs.Bitmap.{
  Bitmap, bitmap_create, bitmap_alloc, bitmap_mark, bitmap_unmark, bitmap_nr_allocated,
}
use ece334operating_system.Fs.Bitmap.Bits.{is_set, IsValid}
use ece334operating_system.Fs.Bitmap.Mark.{bitmap_unmark-mark}
use ece334operating_system.Fs.Bitmap.Alloc.{Allocates, bitmap_alloc-Allocates}
use ece334operating_system.Fs.Bitmap.Create.{Creates, bitmap_create-Creates}
use ece334operating_system.Fs.Bitmap.Count.{count_below, nr_allocated-count}

-- bits 0, 1 and 3 of ten are in use, and so are the six leftover bits
abbrev small : Bitmap
small = record { nbits = 10; v = λ i. if i == 0 then 11 else if i == 1 then 252 else 0 }

small-leftover : (i : ℕ) → 10 ≤ i → i < 16 → is_set small i ≡ true
unfolding checked
small-leftover i lo hi =
    let law : (ltb i 10 || is_set small i) ≡ true =
      checked_at (λ i. ltb i 10 || is_set small i) 16 i hi refl in
    ground arith

small-IsValid : IsValid small
small-IsValid = record {
  bytes = λ i. ground arith;
  small = omega arith;
  leftover = λ i lo hi. small-leftover i lo (omega arith);
}

-- The first clear bit is 2.
small_alloc : Option.map (λ (r : Ret × Bitmap). r.0) (bitmap_alloc small) ≡ some (ok 2)
unfolding bitmap_alloc
small_alloc = refl

small_count : bitmap_nr_allocated small ≡ 3
unfolding bitmap_nr_allocated
small_count = refl

bitmap_alloc-Allocates_example : Allocates small (bitmap_alloc small)
bitmap_alloc-Allocates_example = bitmap_alloc-Allocates small small-IsValid

abbrev marked : Bitmap
marked = record { nbits = 10; v = λ i. if 0 == i then 15 else small.v i }

small_marked : bitmap_mark small 2 ≡ some marked
unfolding bitmap_mark
small_marked = refl

bitmap_unmark-mark_example : bitmap_unmark marked 2 ≡ some small
bitmap_unmark-mark_example = bitmap_unmark-mark small marked 2 small-IsValid small_marked

bitmap_create-Creates_example : Creates 10 (bitmap_create true true 10)
bitmap_create-Creates_example = bitmap_create-Creates 10 (omega arith)

nr_allocated-count_example : bitmap_nr_allocated small ≡ count_below 10 (is_set small)
nr_allocated-count_example = nr_allocated-count small
