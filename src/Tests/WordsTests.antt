-- ===== src/Tests/WordsTests.antt =====
-- warmup/wc.c on the text "a b a ".
use ece334operating_system.Prelude.{ℕ, ◌≡◌, refl, none, some, List, [], ◌∷◌, arith}
use ece334operating_system.Warmup.WordCount.{Table, wc_init, wc_output}
use ece334operating_system.Warmup.WordCount.Words.{pieces, occurrences}
use ece334operating_system.Warmup.WordCount.Counts.{printed, wc_init-counts, wc_init-open}

abbrev text : List ℕ
text = 97 ∷ 32 ∷ 98 ∷ 32 ∷ 97 ∷ 32 ∷ []

wc_init-counts_example :
    (t : Table) × (wc_init text 7 ≡ some t)
    × ((c : ℕ) (s : List ℕ) → printed (c ∷ s) (wc_output t) ≡ occurrences (c ∷ s) (pieces text))
wc_init-counts_example = wc_init-counts text 7 (omega arith) refl

wc_init-open_example : wc_init (97 ∷ 32 ∷ 98 ∷ []) 7 ≡ none
wc_init-open_example = wc_init-open (97 ∷ 32 ∷ 98 ∷ []) 7 (omega arith) refl
