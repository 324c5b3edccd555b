-- ===== src/Fs/Device.antt =====
-- The functions of fs/block.c: whole blocks of the device file. The file is its size and its bytes.
-- A read past the end of the file exits the program, which is `none`.
pub mod Frame
use ece334operating_system.Prelude.{
  ℕ, zero, suc, ◌+◌, ◌-◌, ◌*◌, Bool, ◌&&◌, Option, none, some, ltb, leb, if◌then◌else◌,
}

abbrev pub block_size : ℕ
block_size = 8192

-- a buffer of bytes, as a function of the index
abbrev pub Bytes : Type 0
Bytes = ℕ → ℕ

pub record Device : Type 0 where
  pub size : ℕ
  pub byte : Bytes

-- A write past the end of the file fills the gap with zeros.
unfoldable pub write_blocks : Device → Bytes → ℕ → ℕ → Device
write_blocks dev blocks start nr =
    let from = start * block_size in
    let to = (start + nr) * block_size in
    record {
      size = if ltb dev.size to then to else dev.size;
      byte = λ q.
          if leb from q && ltb q to
          then blocks (q - from)
          else (if ltb q dev.size then dev.byte q else 0);
    }

abbrev pub zero_block : Bytes
zero_block p = 0

-- `nr` rounds of the loop from block `start` on
unfoldable pub zero_blocks : Device → ℕ → ℕ → Device
zero_blocks dev start zero = dev
zero_blocks dev start (suc nr) = zero_blocks (write_blocks dev zero_block start 1) (start + 1) nr

unfoldable pub read_blocks : Device → ℕ → ℕ → Option Bytes
read_blocks dev start nr =
    if leb ((start + nr) * block_size) dev.size
    then some (λ p. dev.byte (start * block_size + p))
    else none
