-- ===== src/Fs/BlockMap/Words.antt =====
-- The words of an index block of fs/read_write.c.
use ece334operating_system.Prelude.{
  ℕ, ◌+◌, ◌*◌, ◌/◌, ◌%◌, ◌^◌, ◌<◌, ◌≡◌, ◌≢◌, refl, some, ◌==◌, if◌then◌else◌, arith, inl, inr, ◌∙◌,
  ap, Bool-cases, ne→==, eq→==,
}
use ece334operating_system.Fs.Device.{Device, Bytes, block_size, write_blocks, read_blocks}
use ece334operating_system.Fs.Device.Frame.{
  block_byte, InFile, read_blocks_lem, write_blocks_in, write_blocks_out,
}
use ece334operating_system.Fs.Super.{le_byte}
use ece334operating_system.Fs.Super.Sync.{Bounded}
use ece334operating_system.Fs.BlockMap.{word_at, set_word}

-- A word is the four bytes at its place.
pub word_at_same :
    (b c : Bytes) (k : ℕ)
    → ((r : ℕ) → r < 4 → b (4 * k + r) ≡ c (4 * k + r))
    → word_at b k ≡ word_at c k
word_at_same b c k h =
    let first : b (4 * k) ≡ c (4 * k) =
      ap b (omega arith) ∙ h 0 (omega arith) ∙ ap c (omega arith) in
    omega (arith, first, h 1 (omega arith), h 2 (omega arith), h 3 (omega arith))

set_word_here : (b : Bytes) (k w r : ℕ) → r < 4 → set_word b k w (4 * k + r) ≡ le_byte w r
unfolding set_word
set_word_here b k w r h =
    let at : (4 * k + r) / 4 ≡ k = omega arith in
    let off : (4 * k + r) % 4 ≡ r = omega arith in rw (at, off, eq→== k k refl) refl

set_word_other :
    (b : Bytes) (k w j r : ℕ) → k ≢ j → r < 4 → set_word b k w (4 * j + r) ≡ b (4 * j + r)
unfolding set_word
set_word_other b k w j r ne h =
    let at : (4 * j + r) / 4 ≡ j = omega arith in rw (at, ne→== j k (omega arith)) refl

word_at-set_word_self : (b : Bytes) (k w : ℕ) → w < 2 ^ 32 → word_at (set_word b k w) k ≡ w
word_at-set_word_self b k w h =
    let first : set_word b k w (4 * k) ≡ w % 256 =
      ap (set_word b k w) (omega arith) ∙ set_word_here b k w 0 (omega arith) ∙ omega arith in
    let second : set_word b k w (4 * k + 1) ≡ w / 256 % 256 = set_word_here b k w 1 (omega arith) in
    let third : set_word b k w (4 * k + 2) ≡ w / 65536 % 256 =
      set_word_here b k w 2 (omega arith) in
    let fourth : set_word b k w (4 * k + 3) ≡ w / 16777216 % 256 =
      set_word_here b k w 3 (omega arith) in
    omega arith

-- Storing a word changes that word alone.
pub word_at-set_word :
    (b : Bytes) (k w j : ℕ)
    → w < 2 ^ 32
    → word_at (set_word b k w) j ≡ (if k == j then w else word_at b j)
word_at-set_word b k w j h = elim (Bool-cases (k == j)) [
  | inl here ↦ let e : k ≡ j = ground arith in rw (here, ← e) (word_at-set_word_self b k w h)
  | inr other ↦
      rw other
        (word_at_same (set_word b k w) b j (λ r hr. set_word_other b k w j r (ground arith) hr))
]

pub word_at_lt : (b : Bytes) (k : ℕ) → Bounded b → word_at b k < 2 ^ 32
word_at_lt b k h = omega (arith, h (4 * k), h (4 * k + 1), h (4 * k + 2), h (4 * k + 3))

pub set_word-Bounded : (b : Bytes) (k w : ℕ) → Bounded b → Bounded (set_word b k w)
unfolding set_word
set_word-Bounded b k w h p = elim (Bool-cases (p / 4 == k)) [
  | inl here ↦ rw here (ground arith)
  | inr other ↦ rw other (h p)
]

-- the bytes of a block of the device
abbrev pub block_of : Device → ℕ → Bytes
block_of dev n p = dev.byte (n * block_size + p)

pub read_block_lem :
    (dev : Device) (n : ℕ) → InFile dev n → read_blocks dev n 1 ≡ some (block_of dev n)
read_block_lem dev n h = read_blocks_lem dev n 1 h

-- A block that keeps its bytes keeps its words.
pub word_kept :
    (dev dev' : Device) (n k : ℕ)
    → k < 2048
    → ((p : ℕ) → p < block_size → block_byte dev' n p ≡ block_byte dev n p)
    → word_at (block_of dev' n) k ≡ word_at (block_of dev n) k
word_kept dev dev' n k hk h =
    word_at_same (block_of dev' n) (block_of dev n) k (λ r hr. h (4 * k + r) (omega arith))

-- A written block has the words of the buffer.
pub word_written :
    (dev : Device) (b : Bytes) (n k : ℕ)
    → k < 2048
    → word_at (block_of (write_blocks dev b n 1) n) k ≡ word_at b k
word_written dev b n k hk = word_at_same (block_of (write_blocks dev b n 1) n) b k (λ r hr.
    write_blocks_in dev b n 1 n (4 * k + r) (omega arith) (omega arith) (omega arith)
    ∙ ap b (omega arith))

-- Another block keeps its words.
pub word_untouched :
    (dev : Device) (b : Bytes) (n m k : ℕ)
    → n ≢ m
    → k < 2048
    → InFile dev m
    → word_at (block_of (write_blocks dev b n 1) m) k ≡ word_at (block_of dev m) k
word_untouched dev b n m k ne hk h =
    word_kept dev (write_blocks dev b n 1) m k hk
      (λ p hp. write_blocks_out dev b n 1 m p (omega arith) hp h)
