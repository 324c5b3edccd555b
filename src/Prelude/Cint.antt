-- ===== src/Prelude/Cint.antt =====
-- What the functions of fs/ return: a C `int` that is a value, or a negated error number.
use Prim.Native.Nat.{ℕ, ◌-◌, ◌^◌}
use mathlib.Core.Bool.{Bool, ◌&&◌}
use ece334operating_system.Prelude.Tests.{ltb, if◌then◌else◌}

-- `err e` is the negative number -e.
pub data Ret : Type 0 where
  ok : ℕ → Ret
  err : ℕ → Ret

abbrev pub enoent : ℕ
enoent = 2

abbrev pub enomem : ℕ
enomem = 12

abbrev pub eexist : ℕ
eexist = 17

abbrev pub enotdir : ℕ
enotdir = 20

abbrev pub eisdir : ℕ
eisdir = 21

abbrev pub einval : ℕ
einval = 22

abbrev pub efbig : ℕ
efbig = 27

abbrev pub enospc : ℕ
enospc = 28

abbrev pub enotempty : ℕ
enotempty = 39

abbrev pub u32_mod : ℕ
u32_mod = 2 ^ 32

-- An `s32` is kept as its bit pattern. Its sign tests, and the `int` that it is.
abbrev pub is_pos : ℕ → Bool
is_pos w = ltb 0 w && ltb w (2 ^ 31)

abbrev pub as_int : ℕ → Ret
as_int w = if ltb w (2 ^ 31) then ok w else err (2 ^ 32 - w)

-- An `int` stored into an `s32`.
abbrev pub as_word : Ret → ℕ
as_word (ok n) = n
as_word (err e) = 2 ^ 32 - e
