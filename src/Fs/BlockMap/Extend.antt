-- ===== src/Fs/BlockMap/Extend.antt =====
-- How the block map grows: new numbers in some slots, the rest as before.
use ece334operating_system.Prelude.{
  ℕ, ◌-◌, ◌≤◌, ◌<◌, ◌≡◌, ◌≢◌, refl, true, false, ◌==◌, if◌then◌else◌, arith, inl, inr, ◌∙◌, ap, sym,
  Bool-cases, ==→ne,
}
use ece334operating_system.Fs.Device.{Device, block_size}
use ece334operating_system.Fs.Device.Frame.{block_byte, InFile}
use ece334operating_system.Fs.Bitmap.{Bitmap}
use ece334operating_system.Fs.Bitmap.Bits.{is_set}
use ece334operating_system.Fs.Super.Inv.{IsMounted, data_start}
use ece334operating_system.Fs.Inode.{FileState}
use ece334operating_system.Fs.BlockMap.Words.{word_kept}
use ece334operating_system.Fs.BlockMap.Slots.{Slot, InRange, IsIndex, ptr, word_in, Used, IsMapped}

-- what a slot holds after `new` was put in
abbrev pub with_new : FileState → (Slot → ℕ) → Slot → ℕ
with_new f new s = if new s == 0 then ptr f s else new s

-- `f'` is `f` with the numbers `new` in its slots (0 for a slot that is kept): they were free, they are
-- allocated now, and they are distinct.
pub record Extends (f : FileState) (bm : Bitmap) (new : Slot → ℕ) (f' : FileState) (bm' : Bitmap)
    : Type 0 where
  pub grow : f.super.dev.size ≤ f'.super.dev.size
  pub kept : (j : ℕ) → is_set bm j ≡ true → is_set bm' j ≡ true
  pub ptrs : (s : Slot) → InRange s → ptr f' s ≡ with_new f new s
  pub used : (s : Slot) → InRange s → new s ≢ 0 → Used bm' (new s)
  pub was_free : (s : Slot) → InRange s → new s ≢ 0 → is_set bm (new s - data_start) ≡ false
  pub in_file : (s : Slot) → InRange s → IsIndex s → new s ≢ 0 → InFile f'.super.dev (new s)
  pub apart : (s t : Slot) → InRange s → InRange t → new s ≢ 0 → new s ≡ new t → s ≡ t

-- An extension of a mapped inode is mapped.
pub Extends-IsMapped :
    {f f' : FileState} {im bm bm' : Bitmap} (new : Slot → ℕ)
    → IsMapped f im bm
    → IsMounted f'.super im bm'
    → Extends f bm new f' bm'
    → IsMapped f' im bm'
Extends-IsMapped {f} {f'} {im} {bm} {bm'} new mp mt x = record {
  is_mounted = mt;
  used = λ s r ne. elim (Bool-cases (new s == 0)) [
    | inl old ↦ rw (is_old s r old) (kept_used (ptr f s) (mp.used s r (ne_old s r old ne)))
    | inr fresh ↦ rw (is_new s r fresh) (x.used s r (==→ne _ 0 fresh))
  ];
  in_file = λ s r ix ne. elim (Bool-cases (new s == 0)) [
    | inl old ↦ rw (is_old s r old) (omega (arith, mp.in_file s r ix (ne_old s r old ne), x.grow))
    | inr fresh ↦ rw (is_new s r fresh) (x.in_file s r ix (==→ne _ 0 fresh))
  ];
  apart = λ s t r q ne e. elim (Bool-cases (new s == 0)) [
    | inl old ↦ elim (Bool-cases (new t == 0)) [
      | inl old' ↦ mp.apart s t r q (ne_old s r old ne) (sym (is_old s r old) ∙ e ∙ is_old t q old')
      | inr fresh' ↦ absurd (clash t s q r fresh' old ne (is_new t q fresh' ∙ refl) (sym e))
    ]
    | inr fresh ↦ elim (Bool-cases (new t == 0)) [
      | inl old' ↦ absurd (clash s t r q fresh old' (λ z. ne (e ∙ z)) (is_new s r fresh) e)
      | inr fresh' ↦
          x.apart s t r q (==→ne _ 0 fresh) (sym (is_new s r fresh) ∙ e ∙ is_new t q fresh')
    ]
  ];
}
  where
    is_old : (s : Slot) → InRange s → (new s == 0) ≡ true → ptr f' s ≡ ptr f s
    is_old s r old = x.ptrs s r ∙ rw old refl

    is_new : (s : Slot) → InRange s → (new s == 0) ≡ false → ptr f' s ≡ new s
    is_new s r fresh = x.ptrs s r ∙ rw fresh refl

    ne_old : (s : Slot) → InRange s → (new s == 0) ≡ true → ptr f' s ≢ 0 → ptr f s ≢ 0
    ne_old s r old ne z = ne (is_old s r old ∙ z)

    kept_used : (n : ℕ) → Used bm n → Used bm' n
    kept_used n u = (u.0, u.1, x.kept (n - data_start) u.2)

    -- a new number is in no slot that is kept
    clash :
        (s t : Slot)
        → InRange s
        → InRange t
        → (new s == 0) ≡ false
        → (new t == 0) ≡ true
        → ptr f' t ≢ 0
        → ptr f' s ≡ new s
        → ptr f' s ≡ ptr f' t
        → ⊥
    clash s t r q fresh old ne is e =
        let same : new s ≡ ptr f t = sym is ∙ e ∙ is_old t q old in
        let set : is_set bm (new s - data_start) ≡ true =
          ap (λ n. is_set bm (n - data_start)) same ∙ (mp.used t q (ne_old t q old ne)).2 in
        let clear : is_set bm (new s - data_start) ≡ false = x.was_free s r (==→ne _ 0 fresh) in cc

-- A word of an index block that both devices hold alike.
pub word_in_kept :
    (dev dev' : Device) (n k : ℕ)
    → k < 2048
    → (n ≢ 0 → (p : ℕ) → p < block_size → block_byte dev' n p ≡ block_byte dev n p)
    → word_in dev' n k ≡ word_in dev n k
word_in_kept dev dev' n k hk h = elim (Bool-cases (n == 0)) [
  | inl zero ↦ rw zero refl
  | inr more ↦ rw more (word_kept dev dev' n k hk (h (==→ne n 0 more)))
]
