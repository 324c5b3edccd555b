-- ===== src/Fs/Bitmap.antt =====
-- The functions of fs/bitmap.c: arrays of bits for storage management. The byte array is a
-- function of the index; what lies past the words of the map is never read.
-- An outer `none` is a failed assertion.
pub mod Alloc
pub mod Bits
pub mod Count
pub mod Create
pub mod Mark
use ece334operating_system.Prelude.{
  ℕ, zero, suc, ◌+◌, ◌-◌, ◌*◌, ◌/◌, ◌%◌, ◌^◌, Bool, true, false, not, ◌&&◌, Option, none, some,
  bit_and, bit_or, ltb, ◌==◌, if◌then◌else◌, update,
}
use ece334operating_system.Prelude.Cint.{Ret, ok, err, enospc, u32_mod}

abbrev pub bits_per_word : ℕ
bits_per_word = 8

abbrev pub word_allbits : ℕ
word_allbits = 0xff

-- DIVROUNDUP of a u_int32_t: the sum wraps
abbrev pub divroundup : ℕ → ℕ → ℕ
divroundup a b = ((a + (b - 1)) % u32_mod) / b

pub record Bitmap : Type 0 where
  pub nbits : ℕ
  pub v : ℕ → ℕ

-- `(WORD_TYPE) 1 << offset`
abbrev pub bit_mask : ℕ → ℕ
bit_mask offset = 2 ^ offset

-- `b->v[ix] |= mask`
abbrev pub or_word : Bitmap → ℕ → ℕ → Bitmap
or_word b ix mask = record b { v = update b.v ix (bit_or (b.v ix) mask) }

-- The loop over the leftover bits: `k` rounds from bit `j` of word `ix` on.
mark_leftover : ℕ → ℕ → ℕ → Bitmap → Bitmap
mark_leftover zero ix j b = b
mark_leftover (suc k) ix j b = mark_leftover k ix (j + 1) (or_word b ix (bit_mask j))

-- The two flags say whether the two calls of malloc succeed. The inner `none` is -ENOMEM.
unfoldable pub bitmap_create : Bool → Bool → ℕ → Option (Option Bitmap)
unfolding mark_leftover
bitmap_create false mem_v nbits = some none
bitmap_create true false nbits = some none
bitmap_create true true nbits =
    let words = divroundup nbits bits_per_word in
    let b : Bitmap = record { nbits = nbits; v = λ i. 0 } in
    let ix = words - 1 in
    let overbits = nbits - ix * bits_per_word in
    if ltb (nbits / bits_per_word) words
    then if (nbits / bits_per_word == words - 1) && (ltb 0 overbits && ltb overbits bits_per_word)
      then some (some (mark_leftover (bits_per_word - overbits) ix overbits b))
      else none
    else some (some b)

-- `k` rounds of the inner loop of bitmap_alloc: the first clear bit from `offset` on.
find_offset : ℕ → ℕ → ℕ → Option ℕ
find_offset zero offset w = none
find_offset (suc k) offset w =
    let rest = find_offset k (offset + 1) w in
    if bit_and w (bit_mask offset) == 0 then some offset else rest

-- What the inner loop does with the bit that it found; with none it meets `assert(0)`.
take_bit : Bitmap → ℕ → Option ℕ → Option (Ret × Bitmap)
take_bit b ix none = none
take_bit b ix (some offset) =
    let index = ix * bits_per_word + offset in
    if ltb index b.nbits then some (ok index, or_word b ix (bit_mask offset)) else none

-- `k` rounds of the outer loop, from word `ix` on.
alloc_from : ℕ → ℕ → Bitmap → Option (Ret × Bitmap)
unfolding find_offset take_bit
alloc_from zero ix b = some (err enospc, b)
alloc_from (suc k) ix b =
    let rest = alloc_from k (ix + 1) b in
    if b.v ix == word_allbits then rest else take_bit b ix (find_offset bits_per_word 0 (b.v ix))

-- `ok index` is the return value 0 with `*index` set.
unfoldable pub bitmap_alloc : Bitmap → Option (Ret × Bitmap)
unfolding alloc_from
bitmap_alloc b = alloc_from (divroundup b.nbits bits_per_word) 0 b

-- bitmap_translate
abbrev pub word_of : ℕ → ℕ
word_of bitno = bitno / bits_per_word

abbrev pub mask_of : ℕ → ℕ
mask_of bitno = bit_mask (bitno % bits_per_word)

unfoldable pub bitmap_mark : Bitmap → ℕ → Option Bitmap
bitmap_mark b index =
    if ltb index b.nbits
    then if bit_and (b.v (word_of index)) (mask_of index) == 0
      then some (or_word b (word_of index) (mask_of index))
      else none
    else none

-- The complement of a mask in an unsigned char is 255 - mask.
unfoldable pub bitmap_unmark : Bitmap → ℕ → Option Bitmap
bitmap_unmark b index =
    if ltb index b.nbits
    then if not (bit_and (b.v (word_of index)) (mask_of index) == 0)
      then some (record b {
        v = update b.v (word_of index) (bit_and (b.v (word_of index)) (255 - mask_of index));
      })
      else none
    else none

unfoldable pub bitmap_isset : Bitmap → ℕ → ℕ
bitmap_isset b index = bit_and (b.v (word_of index)) (mask_of index)

-- `k` rounds of the loop from bit `i` on
nr_from : ℕ → ℕ → ℕ → Bitmap → ℕ
unfolding bitmap_isset
nr_from zero i nr b = nr
nr_from (suc k) i nr b = nr_from k (i + 1) (if not (bitmap_isset b i == 0) then nr + 1 else nr) b

unfoldable pub bitmap_nr_allocated : Bitmap → ℕ
unfolding nr_from
bitmap_nr_allocated b = nr_from b.nbits 0 0 b
