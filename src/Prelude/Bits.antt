-- ===== src/Prelude/Bits.antt =====
-- Laws of the bit operations on one byte, each checked at every byte and offset.
use Prim.Native.Nat.{ℕ, zero, suc, ◌-◌, ◌^◌, ◌<◌, bit_and, bit_or}
use mathlib.Core.Path.{◌≡◌, refl}
use mathlib.Core.Logic.{inl, inr}
use mathlib.Core.Bool.{Bool, true, false, not, ◌&&◌, ◌||◌}
use native.Mathlib.Omega.{arith}
use ece334operating_system.Prelude.Tests.{ltb, ◌==◌, ==→eq, ltb→lt, Bool-cases}

-- The law is true of each number under the bound.
unfoldable pub checked : (ℕ → Bool) → ℕ → Bool
checked law zero = true
checked law (suc top) = checked law top && law top

pub checked_at :
    (law : ℕ → Bool) (bound w : ℕ) → w < bound → checked law bound ≡ true → law w ≡ true
unfolding checked
checked_at law zero w under all = elim under [ ]
checked_at law (suc top) w under all = elim (Bool-cases (w == top)) [
  | inl last ↦ ground arith
  | inr before ↦ checked_at law top w (ground arith) (ground arith)
]

same : Bool → Bool → Bool
same true b = b
same false b = not b

same→eq : (a b : Bool) → same a b ≡ true → a ≡ b
unfolding same
same→eq true b h = ground arith
same→eq false b h = ground arith

-- bit `o` of the byte `w`
abbrev pub test_bit : ℕ → ℕ → Bool
test_bit w o = not (bit_and w (2 ^ o) == 0)

abbrev pub set_bit : ℕ → ℕ → ℕ
set_bit w o = bit_or w (2 ^ o)

-- `w & ~(1 << o)` in an unsigned char
abbrev pub clear_bit : ℕ → ℕ → ℕ
clear_bit w o = bit_and w (255 - 2 ^ o)

-- A law of a byte and two offsets, at every byte and offset.
holds : (ℕ → ℕ → ℕ → Bool) → Bool
unfolding checked
holds f = checked (λ o. checked (λ p. checked (λ w. f w o p) 256) 8) 8

holds_at :
    (f : ℕ → ℕ → ℕ → Bool) (w o p : ℕ) → holds f ≡ true → w < 256 → o < 8 → p < 8 → f w o p ≡ true
unfolding holds
holds_at f w o p h hw ho hp =
    checked_at (λ w. f w o p) 256 w hw
      (checked_at (λ p. checked (λ w. f w o p) 256) 8 p hp
        (checked_at (λ o. checked (λ p. checked (λ w. f w o p) 256) 8) 8 o ho h))

pub test-set :
    (w o p : ℕ) → w < 256 → o < 8 → p < 8 → test_bit (set_bit w o) p ≡ ((o == p) || test_bit w p)
unfolding holds same
test-set w o p hw ho hp = same→eq _ _ (
    holds_at (λ w o p. same (test_bit (set_bit w o) p) ((o == p) || test_bit w p)) w o p refl hw ho
      hp)

pub test-clear :
    (w o p : ℕ)
    → w < 256
    → o < 8
    → p < 8
    → test_bit (clear_bit w o) p ≡ (not (o == p) && test_bit w p)
unfolding holds same
test-clear w o p hw ho hp = same→eq _ _ (
    holds_at (λ w o p. same (test_bit (clear_bit w o) p) (not (o == p) && test_bit w p)) w o p refl
      hw ho hp)

pub set_bit_lt : (w o : ℕ) → w < 256 → o < 8 → set_bit w o < 256
unfolding holds
set_bit_lt w o hw ho =
    ltb→lt _ _ (holds_at (λ w o p. ltb (set_bit w o) 256) w o 0 refl hw ho (omega arith))

pub clear_bit_lt : (w o : ℕ) → w < 256 → o < 8 → clear_bit w o < 256
unfolding holds
clear_bit_lt w o hw ho =
    ltb→lt _ _ (holds_at (λ w o p. ltb (clear_bit w o) 256) w o 0 refl hw ho (omega arith))

-- Setting a clear bit and clearing it again gives the byte back.
pub clear-set : (w o : ℕ) → w < 256 → o < 8 → test_bit w o ≡ false → clear_bit (set_bit w o) o ≡ w
unfolding holds
clear-set w o hw ho h =
    let law : (test_bit w o || (clear_bit (set_bit w o) o == w)) ≡ true =
      holds_at (λ w o p. test_bit w o || (clear_bit (set_bit w o) o == w)) w o 0 refl hw ho
        (omega arith) in
    ==→eq _ _ (rw h at law)

-- Every bit of the full byte is set.
pub test-full : (o : ℕ) → o < 8 → test_bit 255 o ≡ true
unfolding checked
test-full o h = checked_at (λ o. test_bit 255 o) 8 o h refl

-- The zero byte has no bit set.
pub test-zero : (o : ℕ) → o < 8 → test_bit 0 o ≡ false
unfolding checked same
test-zero o h =
    same→eq (test_bit 0 o) false (checked_at (λ o. same (test_bit 0 o) false) 8 o h refl)

-- A byte whose bits are all set is the full byte.
pub full_of_bits : (w : ℕ) → w < 256 → ((o : ℕ) → o < 8 → test_bit w o ≡ true) → w ≡ 255
unfolding checked
full_of_bits w hw h =
    let law : (not (checked (test_bit w) 8) || (w == 255)) ≡ true =
      checked_at (λ w. not (checked (test_bit w) 8) || (w == 255)) 256 w hw refl in
    let all : checked (test_bit w) 8 ≡ true = ground (
      arith,
      h 0 (omega arith),
      h 1 (omega arith),
      h 2 (omega arith),
      h 3 (omega arith),
      h 4 (omega arith),
      h 5 (omega arith),
      h 6 (omega arith),
      h 7 (omega arith),
    ) in
    ==→eq _ _ (rw all at law)
