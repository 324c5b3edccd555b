-- ===== src/Warmup/WordCount/Words.antt =====
-- The words of a text of warmup/wc.c, apart from its loops.
use ece334operating_system.Prelude.{
  ◌⊎◌, ℕ, ◌+◌, ◌<◌, ◌≡◌, refl, true, false, none, some, List, [], ◌∷◌, if◌then◌else◌, arith, ap,
  inl, inr, Bool-cases, same_word,
}
use ece334operating_system.Warmup.WordCount.{is_space, count_chars, scan_word}

-- A word at the head of a list of words gets a byte before it.
abbrev pub put_before : ℕ → List (List ℕ) → List (List ℕ)
put_before c [] = (c ∷ []) ∷ []
put_before c (w ∷ l) = (c ∷ w) ∷ l

-- The pieces of a text that spaces end, empty ones too.
abbrev pub pieces : List ℕ → List (List ℕ)
pieces [] = []
pieces (c ∷ s) = if is_space c then [] ∷ pieces s else put_before c (pieces s)

-- How often a word is in a list of pieces.
abbrev pub occurrences : List ℕ → List (List ℕ) → ℕ
occurrences w [] = 0
occurrences w (p ∷ l) = if same_word p w then occurrences w l + 1 else occurrences w l

-- A text that is empty or ends in a space.
abbrev pub EndsInSpace : List ℕ → Type 0
EndsInSpace [] = Unit
EndsInSpace (c ∷ []) = is_space c ≡ true
EndsInSpace (c ∷ d ∷ s) = EndsInSpace (d ∷ s)

-- What scan_word finds in such a text: the first piece, and the text behind it, which is shorter.
pub scan_word-pieces :
    (c : ℕ) (s : List ℕ)
    → EndsInSpace (c ∷ s)
    → (r : List ℕ × List ℕ) × (scan_word (c ∷ s) ≡ some r)
      × (pieces (c ∷ s) ≡ r.0 ∷ pieces r.1)
      × EndsInSpace r.1
      × (count_chars r.1 < count_chars (c ∷ s))
unfolding scan_word count_chars
scan_word-pieces c [] h = (([], []), rw h refl, rw h refl, tt, omega arith)
scan_word-pieces c (d ∷ s) h = elim (Bool-cases (is_space c)) [
  | inl space ↦ (([], d ∷ s), rw space refl, rw space refl, h, omega arith)
  | inr more ↦
      let r = scan_word-pieces d s h in
      (
        (c ∷ (r.0).0, (r.0).1),
        rw (more, r.1) refl,
        rw more (ap (put_before c) r.2),
        r.3,
        omega arith,
      )
]

-- A text whose last byte is no space.
abbrev pub EndsOpen : List ℕ → Type 0
EndsOpen [] = ⊥
EndsOpen (c ∷ []) = is_space c ≡ false
EndsOpen (c ∷ d ∷ s) = EndsOpen (d ∷ s)

-- In such a text scan_word reads past the end, or finds a word with such a text behind it.
pub scan_word-open :
    (c : ℕ) (s : List ℕ)
    → EndsOpen (c ∷ s)
    → (scan_word (c ∷ s) ≡ none)
      ⊎ ((r : List ℕ × List ℕ) × (scan_word (c ∷ s) ≡ some r) × EndsOpen r.1)
unfolding scan_word
scan_word-open c [] h = inl (rw h refl)
scan_word-open c (d ∷ s) h = elim (Bool-cases (is_space c)) [
  | inl space ↦ inr (([], d ∷ s), rw space refl, h)
  | inr more ↦ elim (scan_word-open d s h) [
    | inl past ↦ inl (rw (more, past) refl)
    | inr (r, found, rest) ↦ inr ((c ∷ r.0, r.1), rw (more, found) refl, rest)
  ]
]
