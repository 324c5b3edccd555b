-- ===== src/Fs/Bitmap/Alloc.antt =====
-- bitmap_alloc of fs/bitmap.c: first fit, and no failed assertion on a valid map.
use ece334operating_system.Prelude.{
  ℕ, zero, suc, ◌+◌, ◌*◌, ◌/◌, ◌%◌, ◌^◌, ◌≤◌, ◌<◌, ◌≡◌, ◌≢◌, refl, true, false, Option, none, some,
  inl, inr, arith, ◌==◌, ltb, Bool-cases, ◌∙◌, bit_and,
}
use ece334operating_system.Prelude.Bits.{test_bit, test-full, full_of_bits}
use ece334operating_system.Prelude.Cint.{Ret, ok, err, enospc}
use ece334operating_system.Fs.Bitmap.{
  Bitmap, bitmap_alloc, alloc_from, find_offset, take_bit, divroundup, or_word, bit_mask,
}
use ece334operating_system.Fs.Bitmap.Bits.{is_set, IsValid, set_one, divroundup_lem}
use ece334operating_system.Fs.Bitmap.Mark.{Flipped, set_one-Flipped}

-- What the inner loop finds among the offsets from `o` on: the first clear bit, or none.
abbrev First : ℕ → ℕ → ℕ → Option ℕ → Type 0
First k o w none = (p : ℕ) → o ≤ p → p < o + k → test_bit w p ≡ true
First k o w (some q) =
    (o ≤ q) × (q < o + k) × (test_bit w q ≡ false) × ((p : ℕ) → o ≤ p → p < q → test_bit w p ≡ true)

find_offset_lem : (k o w : ℕ) → First k o w (find_offset k o w)
unfolding find_offset
find_offset_lem zero o w = λ p lo hi. absurd (omega arith)
find_offset_lem (suc k) o w = elim (Bool-cases (bit_and w (2 ^ o) == 0)) [
  | inl clear ↦ rw clear (omega arith, omega arith, ground arith, λ p lo hi. absurd (omega arith))
  | inr taken ↦ rw taken (later (find_offset k (o + 1) w) taken (find_offset_lem k (o + 1) w))
]
  where
    later :
        (r : Option ℕ)
        → (bit_and w (2 ^ o) == 0) ≡ false
        → First k (o + 1) w r
        → First (suc k) o w r
    later none taken h = λ p lo hi. elim (Bool-cases (o == p)) [
      | inl here ↦ ground arith
      | inr past ↦ h p (ground arith) (omega arith)
    ]
    later (some q) taken h = (
      omega arith,
      omega arith,
      h.2,
      λ p lo hi. elim (Bool-cases (o == p)) [
        | inl here ↦ ground arith
        | inr past ↦ h.3 p (ground arith) (omega arith)
      ],
    )

-- Every bit below `n` is set.
abbrev pub Full : Bitmap → ℕ → Type 0
Full b n = (j : ℕ) → j < n → is_set b j ≡ true

-- The outcomes of an allocation: the lowest clear bit is set and returned, or the map is full.
abbrev pub Allocates : Bitmap → Option (Ret × Bitmap) → Type 0
Allocates b none = ⊥
Allocates b (some (ok i, b')) = Full b i × Flipped b i true b'
Allocates b (some (err e, b')) = (e ≡ enospc) × (b' ≡ b) × Full b b.nbits

-- A full word extends the run of set bits.
Full-word : (b : Bitmap) (ix : ℕ) → Full b (ix * 8) → b.v ix ≡ 255 → Full b ((ix + 1) * 8)
Full-word b ix h e j lt = elim (Bool-cases (ltb j (ix * 8))) [
  | inl low ↦ h j (ground arith)
  | inr high ↦ let at : j / 8 ≡ ix = ground arith in rw (at, e) (test-full (j % 8) (omega arith))
]

-- The bit at an offset of a word.
is_set_at : (b : Bitmap) (ix o : ℕ) → o < 8 → is_set b (ix * 8 + o) ≡ test_bit (b.v ix) o
is_set_at b ix o h =
    let at : (ix * 8 + o) / 8 ≡ ix = omega arith in
    let off : (ix * 8 + o) % 8 ≡ o = omega arith in rw (at, off)

pub set_one_at :
    (b : Bitmap) (ix o : ℕ) → o < 8 → or_word b ix (bit_mask o) ≡ set_one b (ix * 8 + o)
unfolding set_one
set_one_at b ix o h =
    let at : (ix * 8 + o) / 8 ≡ ix = omega arith in
    let off : (ix * 8 + o) % 8 ≡ o = omega arith in rw (at, off)

-- In a word that is not full the inner loop finds a bit, and it is in range.
take_bit_lem :
    (b : Bitmap) (ix : ℕ)
    → IsValid b
    → ix < divroundup b.nbits 8
    → Full b (ix * 8)
    → b.v ix ≢ 255
    → Allocates b (take_bit b ix (find_offset 8 0 (b.v ix)))
unfolding take_bit
take_bit_lem b ix v hx full ne = outcome (find_offset 8 0 (b.v ix)) (find_offset_lem 8 0 (b.v ix))
  where
    outcome : (r : Option ℕ) → First 8 0 (b.v ix) r → Allocates b (take_bit b ix r)
    outcome none h = ne (full_of_bits (b.v ix) (v.bytes ix) (λ o lt. h o (omega arith) lt))
    outcome (some o) h =
        let i = ix * 8 + o in
        let clear : is_set b i ≡ false = is_set_at b ix o h.1 ∙ h.2 in
        let below : Full b i = λ j lt. elim (Bool-cases (ltb j (ix * 8))) [
          | inl low ↦ full j (ground arith)
          | inr high ↦
              let at : j / 8 ≡ ix = ground arith in rw at (h.3 (j % 8) (omega arith) (ground arith))
        ] in
        elim (Bool-cases (ltb i b.nbits)) [
          | inl lt ↦
              rw lt (below, rw (set_one_at b ix o h.1) (set_one-Flipped i v (ground arith) clear))
          | inr ge ↦
              absurd
                (let used : is_set b i ≡ true = v.leftover i (ground arith) (omega arith) in cc)
        ]

alloc_from_lem :
    (k ix : ℕ) (b : Bitmap)
    → IsValid b
    → ix + k ≡ divroundup b.nbits 8
    → Full b (ix * 8)
    → Allocates b (alloc_from k ix b)
unfolding alloc_from
alloc_from_lem zero ix b v e full =
    (refl, refl, λ j lt. full j (omega (arith, divroundup_lem b.nbits v.small)))
alloc_from_lem (suc k) ix b v e full = elim (Bool-cases (b.v ix == 255)) [
  | inl word ↦
      rw word (alloc_from_lem k (ix + 1) b v (omega arith) (Full-word b ix full (ground arith)))
  | inr word ↦ rw word (take_bit_lem b ix v (omega arith) full (ground arith))
]

-- On a valid map bitmap_alloc takes the lowest clear bit, and fails with -ENOSPC, the map
-- unchanged, exactly when no bit below its size is clear; no assertion of it fails.
pub bitmap_alloc-Allocates : (b : Bitmap) → IsValid b → Allocates b (bitmap_alloc b)
unfolding bitmap_alloc
bitmap_alloc-Allocates b v =
    alloc_from_lem (divroundup b.nbits 8) 0 b v (omega arith) (λ j lt. absurd (omega arith))
