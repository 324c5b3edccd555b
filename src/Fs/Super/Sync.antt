-- ===== src/Fs/Super/Sync.antt =====
-- A freemap of fs/super.c beside its copy on the device, and the blocks that hold it.
use ece334operating_system.Prelude.{
  ℕ, zero, suc, ◌+◌, ◌-◌, ◌*◌, ◌/◌, ◌≤◌, ◌<◌, ◌≡◌, ◌≢◌, arith, ◌⊎◌, ◌∙◌, ℕ_discrete, ap, sym,
}
use ece334operating_system.Fs.Device.{
  Device, Bytes, block_size, write_blocks, zero_block, zero_blocks,
}
use ece334operating_system.Fs.Device.Frame.{
  block_byte, InFile, write_blocks_in, write_blocks_out, size-write_blocks,
}
use ece334operating_system.Fs.Bitmap.{Bitmap}
use ece334operating_system.Fs.Super.{freemap_bytes, freemap_block}

-- Every byte of the device is a byte.
abbrev pub Bounded : Bytes → Type 0
Bounded b = (q : ℕ) → b q < 256

pub write_blocks-Bounded :
    (dev : Device) (b : Bytes) (s n : ℕ)
    → Bounded dev.byte
    → Bounded b
    → Bounded (write_blocks dev b s n).byte
unfolding write_blocks
write_blocks-Bounded dev b s n hd hb q = ground (arith, hd q, hb (q - s * block_size))

pub zero_blocks-Bounded :
    (dev : Device) (s n : ℕ) → Bounded dev.byte → Bounded (zero_blocks dev s n).byte
unfolding zero_blocks
zero_blocks-Bounded dev s zero hd = hd
zero_blocks-Bounded dev s (suc n) hd =
    zero_blocks-Bounded (write_blocks dev zero_block s 1) (s + 1) n
      (write_blocks-Bounded dev zero_block s 1 hd (λ q. omega arith))

-- The blocks `start`, …, `start + n - 1` of the device hold the bytes of the map.
pub record Synced (dev : Device) (start n : ℕ) (m : Bitmap) : Type 0 where
  pub in_file : (start + n) * block_size ≤ dev.size
  pub same :
      (k p : ℕ) → k < n → p < block_size → block_byte dev (start + k) p ≡ m.v (k * block_size + p)

-- A device that keeps the blocks of the map stays in step with it.
pub Synced-kept :
    (dev dev' : Device) (start n : ℕ) (m : Bitmap)
    → dev.size ≤ dev'.size
    → ((k p : ℕ)
        → start ≤ k
        → k < start + n
        → p < block_size
        → InFile dev k
        → block_byte dev' k p ≡ block_byte dev k p)
    → Synced dev start n m
    → Synced dev' start n m
Synced-kept dev dev' start n m size kept s = record {
  in_file = omega (arith, s.in_file);
  same = λ k p hk hp.
      kept (start + k) p (omega arith) (omega arith) hp (omega (arith, s.in_file))
      ∙ s.same k p hk hp;
}

pub Synced-out :
    (dev : Device) (b : Bytes) (at start n : ℕ) (m : Bitmap)
    → (at < start) ⊎ (start + n ≤ at)
    → Synced dev start n m
    → Synced (write_blocks dev b at 1) start n m
Synced-out dev b at start n m out =
    Synced-kept dev (write_blocks dev b at 1) start n m (size-write_blocks dev b at 1)
      (λ k p lo hi hp h. write_blocks_out dev b at 1 k p (omega arith) hp h)

-- Writing the block that holds bit `i` brings the device in step with a map that changed there.
pub Synced-write :
    (dev : Device) (start n : ℕ) (m m' : Bitmap) (i : ℕ)
    → freemap_block i < n
    → ((k : ℕ) → k ≢ i / 8 → m'.v k ≡ m.v k)
    → Synced dev start n m
    → Synced
        (write_blocks dev (freemap_bytes m' (freemap_block i)) (start + freemap_block i) 1)
        start
        n
        m'
Synced-write dev start n m m' i hn words s = record {
  in_file = omega (
    arith,
    s.in_file,
    size-write_blocks dev (freemap_bytes m' (freemap_block i)) (start + freemap_block i) 1,
  );
  same = λ k p hk hp. elim (ℕ_discrete k (freemap_block i)) [
    | yes here ↦
        write_blocks_in dev bytes (start + freemap_block i) 1 (start + k) p (omega arith)
          (omega arith) hp
        ∙ ap m'.v (omega arith)
    | no other ↦
        write_blocks_out dev bytes (start + freemap_block i) 1 (start + k) p (omega arith) hp
          (omega (arith, s.in_file))
        ∙ s.same k p hk hp
        ∙ sym (words (k * block_size + p) (omega arith))
  ];
}
  where
    bytes : Bytes
    bytes = freemap_bytes m' (freemap_block i)
