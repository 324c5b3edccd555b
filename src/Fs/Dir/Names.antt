-- ===== src/Fs/Dir/Names.antt =====
-- The names in the entries of fs/dir.c: what strcpy stores, strcmp tells apart.
use mathlib.Core.Path.{fun_ext}
use ece334operating_system.Prelude.{
  ℕ, ◌+◌, ◌-◌, ◌≡◌, ◌≢◌, refl, true, false, ◌&&◌, [], ◌∷◌, ◌==◌, arith, inl, inr, ◌∙◌, ap, sym,
  Bool-cases, ==→eq, eq→==, ne→==,
}
use ece334operating_system.Fs.Dir.{String, str_eq, str_bytes}

-- no character is the end of a string
abbrev pub IsString : String → Type 0
IsString [] = Unit
IsString (c ∷ cs) = (c ≢ 0) × IsString cs

-- the stored string after its first character
str_bytes_tail : (c : ℕ) (cs : String) → (λ p. str_bytes (c ∷ cs) (p + 1)) ≡ str_bytes cs
unfolding str_bytes
str_bytes_tail c cs =
    fun_ext λ p. let at : p + 1 - 1 ≡ p = omega arith in rw (ne→== (p + 1) 0 (omega arith), at) refl

str_bytes_head : (c : ℕ) (cs : String) → str_bytes (c ∷ cs) 0 ≡ c
unfolding str_bytes
str_bytes_head c cs = refl

str_eq_nil : str_eq (str_bytes []) [] ≡ true
unfolding str_eq str_bytes
str_eq_nil = refl

nil_cons : (d : ℕ) (ds : String) → str_eq (str_bytes []) (d ∷ ds) ≡ true → 0 ≡ d
unfolding str_eq str_bytes
nil_cons d ds e = ground arith

cons_nil : (c : ℕ) (cs : String) → str_eq (str_bytes (c ∷ cs)) [] ≡ true → c ≡ 0
unfolding str_eq str_bytes
cons_nil c cs e = ground arith

str_eq_cons :
    (c d : ℕ) (cs ds : String)
    → str_eq (str_bytes (c ∷ cs)) (d ∷ ds) ≡ ((c == d) && str_eq (str_bytes cs) ds)
unfolding str_eq
str_eq_cons c d cs ds = cons_head ∙ ap (λ b. (c == d) && str_eq b ds) (str_bytes_tail c cs)
  where
    cons_head :
        ((str_bytes (c ∷ cs) 0 == d) && str_eq (λ p. str_bytes (c ∷ cs) (p + 1)) ds)
        ≡ ((c == d) && str_eq (λ p. str_bytes (c ∷ cs) (p + 1)) ds)
    cons_head =
        ap (λ n. (n == d) && str_eq (λ p. str_bytes (c ∷ cs) (p + 1)) ds) (str_bytes_head c cs)

str_eq_self : (s : String) → str_eq (str_bytes s) s ≡ true
str_eq_self [] = str_eq_nil
str_eq_self (c ∷ cs) = str_eq_cons c c cs cs ∙ rw (eq→== c c refl, str_eq_self cs) refl

str_eq_same : (s t : String) → IsString s → IsString t → str_eq (str_bytes s) t ≡ true → s ≡ t
str_eq_same [] [] a b e = refl
str_eq_same [] (d ∷ ds) a b e = absurd (b.0 (sym (nil_cons d ds e)))
str_eq_same (c ∷ cs) [] a b e = absurd (a.0 (cons_nil c cs e))
str_eq_same (c ∷ cs) (d ∷ ds) a b e =
    let both : ((c == d) && str_eq (str_bytes cs) ds) ≡ true = sym (str_eq_cons c d cs ds) ∙ e in
    elim (Bool-cases (c == d)) [
      | inl first ↦
          let rest : str_eq (str_bytes cs) ds ≡ true = rw first at both in
          rw (==→eq c d first) (ap (λ l. d ∷ l) (str_eq_same cs ds a.1 b.1 rest))
      | inr other ↦ let no : false ≡ true = rw other at both in ground arith
    ]

pub str_eq-str_bytes :
    (s t : String)
    → IsString s
    → IsString t
    → (str_eq (str_bytes s) s ≡ true) × (s ≢ t → str_eq (str_bytes s) t ≡ false)
str_eq-str_bytes s t a b = (
  str_eq_self s,
  λ ne. elim (Bool-cases (str_eq (str_bytes s) t)) [
    | inl e ↦ absurd (ne (str_eq_same s t a b e))
    | inr e ↦ e
  ],
)
