-- ===== src/Fs/Bitmap/Mark.antt =====
-- bitmap_mark and bitmap_unmark of fs/bitmap.c.
use ece334operating_system.Prelude.{
  ℕ, ◌/◌, ◌≤◌, ◌<◌, ◌≡◌, ◌≢◌, Bool, true, false, not, Option, none, some, ◌⊎◌, inl, inr, arith,
  ◌==◌, if◌then◌else◌, ltb, Bool-cases,
}
use ece334operating_system.Fs.Bitmap.{Bitmap, bitmap_mark, bitmap_unmark}
use ece334operating_system.Fs.Bitmap.Bits.{
  is_set, IsValid, set_one, clear_one, nbits-set_one, nbits-clear_one, is_set-set_one,
  is_set-clear_one, set_one-IsValid, clear_one-IsValid, clear_one-set_one,
}

-- The map `b'` is `b` with the bit `i` turned to `value`, and nothing else changed.
pub record Flipped (b : Bitmap) (i : ℕ) (value : Bool) (b' : Bitmap) : Type 0 where
  pub in_range : i < b.nbits
  pub before : is_set b i ≡ not value
  pub after : (j : ℕ) → is_set b' j ≡ (if i == j then value else is_set b j)
  pub nbits : b'.nbits ≡ b.nbits
  pub words : (k : ℕ) → k ≢ i / 8 → b'.v k ≡ b.v k
  pub valid : IsValid b'

pub set_one-Flipped :
    {b : Bitmap} (i : ℕ)
    → IsValid b
    → i < b.nbits
    → is_set b i ≡ false
    → Flipped b i true (set_one b i)
set_one-Flipped {b} i v h e = record {
  in_range = h;
  before = e;
  after = λ j. ground (arith, is_set-set_one b v.bytes i j);
  nbits = nbits-set_one b i;
  words = λ k ne. unfold set_one in ground arith;
  valid = set_one-IsValid i v;
}

clear_one-Flipped :
    {b : Bitmap} (i : ℕ)
    → IsValid b
    → i < b.nbits
    → is_set b i ≡ true
    → Flipped b i false (clear_one b i)
clear_one-Flipped {b} i v h e = record {
  in_range = h;
  before = e;
  after = λ j. ground (arith, is_set-clear_one b v.bytes i j);
  nbits = nbits-clear_one b i;
  words = λ k ne. unfold clear_one in ground arith;
  valid = clear_one-IsValid i h v;
}

-- What mark and unmark return, in terms of the bits.
bitmap_mark_eq :
    (b : Bitmap) (i : ℕ)
    → bitmap_mark b i
      ≡ (if ltb i b.nbits then (if is_set b i then none else some (set_one b i)) else none)
unfolding bitmap_mark set_one
bitmap_mark_eq b i = ground arith

bitmap_unmark_eq :
    (b : Bitmap) (i : ℕ)
    → bitmap_unmark b i
      ≡ (if ltb i b.nbits then (if is_set b i then some (clear_one b i) else none) else none)
unfolding bitmap_unmark clear_one
bitmap_unmark_eq b i = ground arith

pub bitmap_mark-set_one :
    (b : Bitmap) (i : ℕ) → i < b.nbits → is_set b i ≡ false → bitmap_mark b i ≡ some (set_one b i)
bitmap_mark-set_one b i h e = ground (arith, bitmap_mark_eq b i)

-- The two outcomes of an operation that turns bit `i` to `value`: the assertion fails exactly when
-- the bit is out of range or has the value already.
abbrev pub Turns : Bitmap → ℕ → Bool → Option Bitmap → Type 0
Turns b i value none = (b.nbits ≤ i) ⊎ (is_set b i ≡ value)
Turns b i value (some b') = Flipped b i value b'

-- On a valid map bitmap_mark sets a clear bit in range, changes no other bit and keeps the map
-- valid; it fails its assertions exactly at a bit out of range or already set.
bitmap_mark-Turns : (b : Bitmap) (i : ℕ) → IsValid b → Turns b i true (bitmap_mark b i)
bitmap_mark-Turns b i v = rw (bitmap_mark_eq b i) (elim (Bool-cases (ltb i b.nbits)) [
  | inl lt ↦ elim (Bool-cases (is_set b i)) [
    | inl set ↦ rw (lt, set) (inr set)
    | inr clear ↦ rw (lt, clear) (set_one-Flipped i v (ground arith) clear)
  ]
  | inr ge ↦ rw ge (inl (ground arith))
])

-- On a valid map bitmap_unmark clears a set bit in range, changes no other bit and keeps the map
-- valid; it fails its assertions exactly at a bit out of range or already clear.
pub bitmap_unmark-Turns : (b : Bitmap) (i : ℕ) → IsValid b → Turns b i false (bitmap_unmark b i)
bitmap_unmark-Turns b i v = rw (bitmap_unmark_eq b i) (elim (Bool-cases (ltb i b.nbits)) [
  | inl lt ↦ elim (Bool-cases (is_set b i)) [
    | inl set ↦ rw (lt, set) (clear_one-Flipped i v (ground arith) set)
    | inr clear ↦ rw (lt, clear) (inr clear)
  ]
  | inr ge ↦ rw ge (inl (ground arith))
])

-- Marking a clear bit in range and unmarking it gives the map back, byte for byte.
pub bitmap_unmark-mark :
    (b b' : Bitmap) (i : ℕ) → IsValid b → bitmap_mark b i ≡ some b' → bitmap_unmark b' i ≡ some b
bitmap_unmark-mark b b' i v e =
    let m : Turns b i true (some b') = rw e at (bitmap_mark-Turns b i v) in
    let same : b' ≡ set_one b i = cc (bitmap_mark-set_one b i m.in_range m.before) in
    rw (same, bitmap_unmark_eq (set_one b i) i)
      (ground (
        arith,
        m.in_range,
        m.before,
        nbits-set_one b i,
        is_set-set_one b v.bytes i i,
        clear_one-set_one i v m.before,
      ))
