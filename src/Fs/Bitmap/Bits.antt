-- ===== src/Fs/Bitmap/Bits.antt =====
-- The bits of a map of fs/bitmap.c, its well-formedness, and what changing one bit does to the rest.
use ece334operating_system.Prelude.{
  ℕ, ◌*◌, ◌/◌, ◌+◌, ◌%◌, ◌^◌, ◌≤◌, ◌<◌, ◌≡◌, refl, Bool, true, false, not, ◌&&◌, ◌||◌, arith, ◌==◌,
  update, fun_ext, ap,
}
use ece334operating_system.Prelude.Bits.{
  test_bit, clear_bit, test-set, test-clear, set_bit_lt, clear_bit_lt, clear-set,
}
use ece334operating_system.Fs.Bitmap.{Bitmap, or_word, bit_mask, bitmap_isset, divroundup}

-- bit `i` of the map, as a Boolean
abbrev pub is_set : Bitmap → ℕ → Bool
is_set b i = test_bit (b.v (i / 8)) (i % 8)

-- Every word is a byte, the count of words does not wrap, and leftover bits are in use.
pub record IsValid (b : Bitmap) : Type 0 where
  pub bytes : (i : ℕ) → b.v i < 256
  pub small : b.nbits < 2 ^ 31
  pub leftover : (i : ℕ) → b.nbits ≤ i → i < 8 * divroundup b.nbits 8 → is_set b i ≡ true

-- The words of a map of `n` bits.
pub divroundup_lem : (n : ℕ) → n < 2 ^ 31 → divroundup n 8 ≡ (n + 7) / 8
divroundup_lem n h = omega arith

pub is_set-isset : (b : Bitmap) (i : ℕ) → is_set b i ≡ not (bitmap_isset b i == 0)
unfolding bitmap_isset
is_set-isset b i = refl

unfoldable pub set_one : Bitmap → ℕ → Bitmap
set_one b i = or_word b (i / 8) (bit_mask (i % 8))

unfoldable pub clear_one : Bitmap → ℕ → Bitmap
clear_one b i = record b { v = update b.v (i / 8) (clear_bit (b.v (i / 8)) (i % 8)) }

pub nbits-set_one : (b : Bitmap) (i : ℕ) → (set_one b i).nbits ≡ b.nbits
unfolding set_one
nbits-set_one b i = refl

pub nbits-clear_one : (b : Bitmap) (i : ℕ) → (clear_one b i).nbits ≡ b.nbits
unfolding clear_one
nbits-clear_one b i = refl

module _ (b : Bitmap) (bytes : (k : ℕ) → b.v k < 256) (i j : ℕ) where
  pub is_set-set_one : is_set (set_one b i) j ≡ ((i == j) || is_set b j)
  unfolding set_one
  is_set-set_one =
      ground
        (arith, test-set (b.v (i / 8)) (i % 8) (j % 8) (bytes (i / 8)) (omega arith) (omega arith))

  pub is_set-clear_one : is_set (clear_one b i) j ≡ (not (i == j) && is_set b j)
  unfolding clear_one
  is_set-clear_one =
      ground (
        arith,
        test-clear (b.v (i / 8)) (i % 8) (j % 8) (bytes (i / 8)) (omega arith) (omega arith),
      )

  pub set_one_lt : (set_one b i).v j < 256
  unfolding set_one
  set_one_lt =
      ground (arith, bytes j, set_bit_lt (b.v (i / 8)) (i % 8) (bytes (i / 8)) (omega arith))

  clear_one_lt : (clear_one b i).v j < 256
  unfolding clear_one
  clear_one_lt =
      ground (arith, bytes j, clear_bit_lt (b.v (i / 8)) (i % 8) (bytes (i / 8)) (omega arith))

-- A map of the same size that keeps the leftover bits is valid.
IsValid-of :
    (b b' : Bitmap)
    → b'.nbits ≡ b.nbits
    → ((k : ℕ) → b'.v k < 256)
    → ((j : ℕ) → b.nbits ≤ j → is_set b j ≡ true → is_set b' j ≡ true)
    → IsValid b
    → IsValid b'
IsValid-of b b' e bytes keep v = record {
  bytes = bytes;
  small = omega arith;
  leftover = λ j lo hi. keep j (omega arith) (v.leftover j (omega arith) (omega arith));
}

pub set_one-IsValid : {b : Bitmap} (i : ℕ) → IsValid b → IsValid (set_one b i)
set_one-IsValid {b} i v =
    IsValid-of b (set_one b i) (nbits-set_one b i) (set_one_lt b v.bytes i)
      (λ j lo old. rw (is_set-set_one b v.bytes i j, old) (ground arith)) v

pub clear_one-IsValid : {b : Bitmap} (i : ℕ) → i < b.nbits → IsValid b → IsValid (clear_one b i)
clear_one-IsValid {b} i h v =
    IsValid-of b (clear_one b i) (nbits-clear_one b i) (clear_one_lt b v.bytes i)
      (λ j lo old. rw (is_set-clear_one b v.bytes i j, old) (ground arith)) v

-- Clearing a bit that was set undoes the setting, word for word.
pub clear_one-set_one :
    {b : Bitmap} (i : ℕ) → IsValid b → is_set b i ≡ false → clear_one (set_one b i) i ≡ b
unfolding clear_one set_one
clear_one-set_one {b} i v h =
    ap (λ (w : ℕ → ℕ). record b { v = w })
      (fun_ext
        λ k. ground (arith, clear-set (b.v (i / 8)) (i % 8) (v.bytes (i / 8)) (omega arith) h))
