-- ===== src/Fs/Device/Frame.antt =====
-- What a write of fs/block.c leaves in each block, and that a read sees it.
use ece334operating_system.Prelude.{
  ℕ, zero, suc, ◌+◌, ◌-◌, ◌*◌, ◌≤◌, ◌<◌, ◌≡◌, refl, some, arith, ◌⊎◌, ◌∙◌, ap, lt→ltb, le→leb,
  dec_lt,
}
use ece334operating_system.Fs.Device.{
  Device, Bytes, block_size, write_blocks, zero_blocks, read_blocks, zero_block,
}

-- byte `p` of block `k`
abbrev pub block_byte : Device → ℕ → ℕ → ℕ
block_byte dev k p = dev.byte (k * block_size + p)

-- the block lies inside the file
abbrev pub InFile : Device → ℕ → Type 0
InFile dev k = (k + 1) * block_size ≤ dev.size

-- A read of blocks inside the file returns their bytes.
pub read_blocks_lem :
    (dev : Device) (k n : ℕ)
    → (k + n) * block_size ≤ dev.size
    → read_blocks dev k n ≡ some (λ p. dev.byte (k * block_size + p))
unfolding read_blocks
read_blocks_lem dev k n h = ground arith

module _ (dev : Device) (b : Bytes) (s n : ℕ) where
  pub write_blocks_in :
      (k p : ℕ)
      → s ≤ k
      → k < s + n
      → p < block_size
      → block_byte (write_blocks dev b s n) k p ≡ b ((k - s) * block_size + p)
  unfolding write_blocks
  write_blocks_in k p lo hi hp =
      let at : k * block_size + p - s * block_size ≡ (k - s) * block_size + p = omega arith in
      rw
        (
          le→leb (s * block_size) (k * block_size + p) (omega arith),
          lt→ltb (k * block_size + p) ((s + n) * block_size) (omega arith),
        )
        (ap b at)

  pub write_blocks_out :
      (k p : ℕ)
      → (k < s) ⊎ (s + n ≤ k)
      → p < block_size
      → InFile dev k
      → block_byte (write_blocks dev b s n) k p ≡ block_byte dev k p
  unfolding write_blocks
  write_blocks_out k p out hp h = ground arith

  pub size-write_blocks : dev.size ≤ (write_blocks dev b s n).size
  unfolding write_blocks
  size-write_blocks = ground arith

  pub size-write_inside : (s + n) * block_size ≤ dev.size → (write_blocks dev b s n).size ≡ dev.size
  unfolding write_blocks
  size-write_inside h = ground arith

  pub write_blocks_byte :
      (q : ℕ)
      → (q < s * block_size) ⊎ ((s + n) * block_size ≤ q)
      → q < dev.size
      → (write_blocks dev b s n).byte q ≡ dev.byte q
  unfolding write_blocks
  write_blocks_byte q out h = ground arith

  pub write_blocks-InFile : (k : ℕ) → s ≤ k → k < s + n → InFile (write_blocks dev b s n) k
  unfolding write_blocks
  write_blocks-InFile k lo hi = ground arith

pub size-zero_blocks : (n : ℕ) (dev : Device) (s : ℕ) → dev.size ≤ (zero_blocks dev s n).size
unfolding zero_blocks
size-zero_blocks zero dev s = omega arith
size-zero_blocks (suc n) dev s = omega (
  arith,
  size-zero_blocks n (write_blocks dev zero_block s 1) (s + 1),
  size-write_blocks dev zero_block s 1,
)

pub zero_blocks_out :
    (n : ℕ) (dev : Device) (s k p : ℕ)
    → (k < s) ⊎ (s + n ≤ k)
    → p < block_size
    → InFile dev k
    → block_byte (zero_blocks dev s n) k p ≡ block_byte dev k p
unfolding zero_blocks
zero_blocks_out zero dev s k p out hp h = refl
zero_blocks_out (suc n) dev s k p out hp h =
    let dev' = write_blocks dev zero_block s 1 in
    zero_blocks_out n dev' (s + 1) k p (omega arith) hp
      (omega (arith, size-write_blocks dev zero_block s 1))
    ∙ write_blocks_out dev zero_block s 1 k p (omega arith) hp h

-- Zeroed blocks read as zero.
pub zero_blocks_in :
    (n : ℕ) (dev : Device) (s k p : ℕ)
    → s ≤ k
    → k < s + n
    → p < block_size
    → block_byte (zero_blocks dev s n) k p ≡ 0
unfolding zero_blocks
zero_blocks_in zero dev s k p lo hi hp = absurd (omega arith)
zero_blocks_in (suc n) dev s k p lo hi hp = elim (dec_lt s k) [
  | yes later ↦
      zero_blocks_in n (write_blocks dev zero_block s 1) (s + 1) k p (omega arith) (omega arith) hp
  | no first ↦
      zero_blocks_out n (write_blocks dev zero_block s 1) (s + 1) k p (omega arith) hp
        (write_blocks-InFile dev zero_block s 1 k lo (omega arith))
      ∙ write_blocks_in dev zero_block s 1 k p lo (omega arith) hp
]

pub zero_blocks-InFile :
    (n : ℕ) (dev : Device) (s k : ℕ) → s ≤ k → k < s + n → InFile (zero_blocks dev s n) k
unfolding zero_blocks
zero_blocks-InFile zero dev s k lo hi = absurd (omega arith)
zero_blocks-InFile (suc n) dev s k lo hi = elim (dec_lt s k) [
  | yes later ↦
      zero_blocks-InFile n (write_blocks dev zero_block s 1) (s + 1) k (omega arith) (omega arith)
  | no first ↦ omega (
    arith,
    write_blocks-InFile dev zero_block s 1 k lo (omega arith),
    size-zero_blocks n (write_blocks dev zero_block s 1) (s + 1),
  )
]
