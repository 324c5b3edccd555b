-- ===== src/Prelude/Strings.antt =====
-- Strings of C as lists of bytes: strcmp(a, b) == 0.
use Prim.Native.Nat.{ℕ}
use mathlib.Core.Path.{◌≡◌, refl, ap, ◌∙◌}
use mathlib.Core.Logic.{◌≢◌, inl, inr}
use mathlib.Core.Bool.{Bool, true, false, ◌&&◌}
use mathlib.Core.List.{List, [], ◌∷◌}
use ece334operating_system.Prelude.Tests.{◌==◌, Bool-cases, ==→eq, eq→==}

unfoldable pub same_word : List ℕ → List ℕ → Bool
same_word [] [] = true
same_word [] (d ∷ t) = false
same_word (c ∷ s) [] = false
same_word (c ∷ s) (d ∷ t) = (c == d) && same_word s t

pub same_word-eq : (s t : List ℕ) → same_word s t ≡ true → s ≡ t
unfolding same_word
same_word-eq [] [] h = refl
same_word-eq [] (d ∷ t) h = cc
same_word-eq (c ∷ s) [] h = cc
same_word-eq (c ∷ s) (d ∷ t) h = elim (Bool-cases (c == d)) [
  | inl e ↦
      let k : same_word s t ≡ true = rw e at h in
      ap (λ a. a ∷ s) (==→eq c d e) ∙ ap (λ a. d ∷ a) (same_word-eq s t k)
  | inr e ↦ let k : false ≡ true = rw e at h in cc
]

pub same_word_refl : (s : List ℕ) → same_word s s ≡ true
unfolding same_word
same_word_refl [] = refl
same_word_refl (c ∷ s) = rw (eq→== c c refl) (same_word_refl s)

pub ne-same_word : (s t : List ℕ) → s ≢ t → same_word s t ≡ false
ne-same_word s t h = elim (Bool-cases (same_word s t)) [
  | inl e ↦ elim (h (same_word-eq s t e)) [ ]
  | inr e ↦ e
]
