-- ===== src/Warmup/WordCount.antt =====
-- warmup/wc.c: the table of the words of a text. A text is the list of its bytes before the NUL. The outer
-- `none` is a read past the end of the text, or a remainder by 0.
pub mod Words
pub mod Counts
use ece334operating_system.Prelude.{
  ℕ, zero, suc, ◌+◌, ◌-◌, ◌*◌, ◌%◌, ◌^◌, Bool, true, false, ◌&&◌, ◌||◌, Option, none, some, List,
  [], ◌∷◌, ◌++◌, ltb, leb, ◌==◌, ◌>>=◌, if◌then◌else◌, update, same_word,
}

-- struct wordsElement
pub record Entry : Type 0 where
  pub word : List ℕ
  pub sizeofword : ℕ
  pub entry_key : ℕ
  pub counts : ℕ

-- struct wc
pub record Table : Type 0 where
  pub wc_array : ℕ → List Entry
  pub size : ℕ

-- A char with its sign, as an unsigned long.
abbrev pub char_as_long : ℕ → ℕ
char_as_long c = if ltb c 128 then c else c + (2 ^ 64 - 256)

unfoldable pub word_hash_from : ℕ → List ℕ → ℕ
word_hash_from h [] = h
word_hash_from h (c ∷ s) = word_hash_from ((h * 33 + char_as_long c) % 2 ^ 64) s

-- hash; the unsigned long wraps around.
unfoldable pub word_hash : List ℕ → ℕ
unfolding word_hash_from
word_hash s = word_hash_from 5381 s

-- isspace of the C library, in its own locale.
abbrev pub is_space : ℕ → Bool
is_space c = (c == 32) || (leb 9 c && leb c 13)

unfoldable pub count_chars : List ℕ → ℕ
count_chars [] = 0
count_chars (c ∷ s) = count_chars s + 1

-- The word up to the next space, and the text behind that space. The loop does not stop at the NUL.
unfoldable pub scan_word : List ℕ → Option (List ℕ × List ℕ)
scan_word [] = none
scan_word (c ∷ s) =
    let rest = scan_word s in if is_space c then some ([], s) else rest >>= λ r. some (c ∷ r.0, r.1)

-- initNode
unfoldable pub init_node : List ℕ → ℕ → Entry
unfolding count_chars
init_node w key = record { word = w; sizeofword = count_chars w; entry_key = key; counts = 1 }

abbrev pub count_again : Entry → Entry
count_again e = record e { counts = e.counts + 1 }

-- The loop over the rest of a chain.
unfoldable pub count_behind : List ℕ → ℕ → List Entry → List Entry
unfolding init_node same_word
count_behind w key [] = init_node w key ∷ []
count_behind w key (e ∷ l) =
    let rest = count_behind w key l in if same_word e.word w then count_again e ∷ l else e ∷ rest

-- The three cases on the first element.
unfoldable pub count_in : List ℕ → ℕ → List Entry → List Entry
unfolding init_node count_behind same_word
count_in w key [] = init_node w key ∷ []
count_in w key (e ∷ l) = if same_word e.word w then count_again e ∷ l else e ∷ count_behind w key l

unfoldable pub count_word : List ℕ → Table → Option Table
unfolding count_in word_hash
count_word w t =
    let index = word_hash w % t.size in
    let counted : Table = record t {
      wc_array = update t.wc_array index (count_in w index (t.wc_array index));
    } in
    if t.size == 0 then none else some counted

-- A round of the loop of wc_init on a word, which may be empty.
unfoldable pub count_scanned : List ℕ → Table → Option Table
unfolding count_word
count_scanned [] t = some t
count_scanned (c ∷ s) t = count_word (c ∷ s) t

-- The loop; the fuel is the length of the text, of which each round takes a byte.
unfoldable pub wc_loop : ℕ → List ℕ → Table → Option Table
unfolding scan_word count_scanned
wc_loop k [] t = some t
wc_loop zero (c ∷ s) t = none
wc_loop (suc k) (c ∷ s) t = scan_word (c ∷ s) >>= λ r. count_scanned r.0 t >>= λ u. wc_loop k r.1 u

unfoldable pub wc_init : List ℕ → ℕ → Option Table
unfolding wc_loop count_chars
wc_init text size = wc_loop (count_chars text) text (record { wc_array = λ k. []; size = size })

-- What wc_output prints: the words with their counts, chain by chain.
unfoldable pub output_chain : List Entry → List (List ℕ × ℕ)
output_chain [] = []
output_chain (e ∷ l) = (e.word, e.counts) ∷ output_chain l

unfoldable pub output_from : ℕ → ℕ → (ℕ → List Entry) → List (List ℕ × ℕ)
unfolding output_chain
output_from zero i a = []
output_from (suc k) i a = output_chain (a i) ++ output_from k (i + 1) a

unfoldable pub wc_output : Table → List (List ℕ × ℕ)
unfolding output_from
wc_output t = output_from t.size 0 t.wc_array
