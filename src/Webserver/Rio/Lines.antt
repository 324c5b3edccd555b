-- ===== src/Webserver/Rio/Lines.antt =====
-- The lines that rio_readlineb of webserver/common.c reads.
use ece334operating_system.Prelude.{
  ℕ, zero, suc, ◌+◌, ◌≡◌, refl, false, Option, none, some, List, [], ◌∷◌, ◌++◌, ◌==◌, if◌then◌else◌,
  arith, ap, ◌∙◌, ◌⊎◌, inl, inr, Bool-cases, same_word, ne→==,
}
use ece334operating_system.Webserver.Rio.{
  Incoming, chunk, interrupted, failed, Rio, ReadB, got, at_end, copy_bytes, first_bytes,
  after_bytes, refill, readb_from, rio_readb, Line, line, nothing, add_byte, line_end, take_byte,
  read_line, rio_readlineb, empty_line, headers_next, headers_loop,
}

-- The bytes that a descriptor still gives, in whatever pieces.
abbrev pub bytes_of : List Incoming → List ℕ
bytes_of [] = []
bytes_of (chunk c cs ∷ l) = c ∷ (cs ++ bytes_of l)
bytes_of (interrupted ∷ l) = bytes_of l
bytes_of (failed ∷ l) = bytes_of l

abbrev pub stream : Rio → List ℕ
stream rp = rp.unread ++ bytes_of rp.incoming

-- No call of read() fails but for EINTR.
abbrev pub NoFailure : List Incoming → Type 0
NoFailure [] = Unit
NoFailure (chunk c cs ∷ l) = NoFailure l
NoFailure (interrupted ∷ l) = NoFailure l
NoFailure (failed ∷ l) = ⊥

-- The next byte of the stream, or its end.
abbrev NextByte : ReadB × Rio → List ℕ → Type 0
NextByte r s =
    ((s ≡ []) × (r.0 ≡ at_end) × (stream r.1 ≡ []) × NoFailure r.1.incoming)
    ⊎ ((c : ℕ) × (r.0 ≡ got (c ∷ [])) × (s ≡ c ∷ stream r.1) × NoFailure r.1.incoming)

refill-NextByte : (l : List Incoming) → NoFailure l → NextByte (refill 1 l) (bytes_of l)
unfolding refill copy_bytes first_bytes after_bytes
refill-NextByte [] f = inl (refl, refl, refl, tt)
refill-NextByte (chunk c cs ∷ l) f = inr (c, refl, refl, f)
refill-NextByte (interrupted ∷ l) f = refill-NextByte l f
refill-NextByte (failed ∷ l) f = elim f [ ]

readb_from-NextByte :
    (u : List ℕ) (l : List Incoming) → NoFailure l → NextByte (readb_from 1 u l) (u ++ bytes_of l)
unfolding readb_from copy_bytes first_bytes after_bytes
readb_from-NextByte [] l f = refill-NextByte l f
readb_from-NextByte (c ∷ u) l f = inr (c, refl, refl, f)

-- The line at the head of a stream, of at most `k` bytes, and what is behind it.
abbrev pub cut_line : ℕ → List ℕ → List ℕ × List ℕ
cut_line zero s = ([], s)
cut_line (suc k) [] = ([], [])
cut_line (suc k) (c ∷ s) = if c == 10 then (c ∷ [], s) else (c ∷ (cut_line k s).0, (cut_line k s).1)

-- The outcome of a line of a stream, where `n` bytes of it are there already.
abbrev line_of : ℕ → ℕ → List ℕ → Line
line_of zero n s = line []
line_of (suc k) n [] = line_end n
line_of (suc k) n (c ∷ s) = line (cut_line (suc k) (c ∷ s)).0

abbrev ReadsLine : ℕ → ℕ → List ℕ → Line × Rio → Type 0
ReadsLine k n s r = (r.0 ≡ line_of k n s) × (stream r.1 ≡ (cut_line k s).1) × NoFailure r.1.incoming

at_state :
    (k n : ℕ) (s t : List ℕ) (q r : Line × Rio)
    → s ≡ t
    → q ≡ r
    → ReadsLine k n t r
    → ReadsLine k n s q
at_state k n s t q r e h x = rw (e, h) x

line_of-later : (k n : ℕ) (s : List ℕ) → line_of k (n + 1) s ≡ line (cut_line k s).0
line_of-later zero n s = refl
line_of-later (suc k) n [] = rw (ne→== (n + 1) 0 (omega arith)) refl
line_of-later (suc k) n (c ∷ s) = refl

add_byte-eq :
    (c : ℕ) (l : List ℕ) (x : Line × Rio) → x.0 ≡ line l → add_byte c x ≡ (line (c ∷ l), x.1)
unfolding add_byte
add_byte-eq c l x h = ap (λ y. add_byte c (y, x.1)) h

read_line-ReadsLine :
    (k n : ℕ) (rp : Rio) → NoFailure rp.incoming → ReadsLine k n (stream rp) (read_line k n rp)
unfolding read_line rio_readb take_byte
read_line-ReadsLine zero n rp f = (refl, refl, f)
read_line-ReadsLine (suc k) n rp f =
    let r = rio_readb 1 rp in
    let more : Rio → Line × Rio = λ q. read_line k (n + 1) q in
    elim (readb_from-NextByte rp.unread rp.incoming f) [
      | inl (e, g, t, clean) ↦
          at_state (suc k) n (stream rp) [] (take_byte n more r) (line_end n, r.1) e
            (ap (λ x. take_byte n more (x, r.1)) g) (refl, t, clean)
      | inr (c, g, e, clean) ↦
          let i = read_line-ReadsLine k (n + 1) r.1 clean in
          let after =
            add_byte-eq c (cut_line k (stream r.1)).0 (more r.1)
              (i.0 ∙ line_of-later k n (stream r.1)) in
          at_state (suc k) n (stream rp) (c ∷ stream r.1) (take_byte n more r)
            (if c == 10
              then (line (c ∷ []), r.1)
              else (line (c ∷ (cut_line k (stream r.1)).0), (more r.1).1))
            e
            (ap (λ x. take_byte n more (x, r.1)) g
              ∙ ap (λ x. if c == 10 then (line (c ∷ []), r.1) else x) after)
            (elim (Bool-cases (c == 10)) [
              | inl newline ↦ rw newline (refl, refl, clean)
              | inr other ↦ rw other (refl, i.1, i.2)
            ])
    ]

-- Where no call of read() fails but for EINTR, rio_readlineb depends on the bytes of the stream only and not on
-- the pieces in which read() gives them: with room for a byte it returns 0 at the end of the stream, and
-- otherwise the bytes up to the first newline, at most `maxlen` of them, and the rest of the stream is left.
pub rio_readlineb-cut_line :
    (maxlen : ℕ) (rp : Rio)
    → NoFailure rp.incoming
    → ((rio_readlineb (suc maxlen) rp).0
        ≡ (elim (stream rp) [ [] ↦ nothing | c ∷ s ↦ line (cut_line (suc maxlen) (c ∷ s)).0 ]))
      × (stream (rio_readlineb (suc maxlen) rp).1 ≡ (cut_line (suc maxlen) (stream rp)).1)
      × NoFailure (rio_readlineb (suc maxlen) rp).1.incoming
unfolding rio_readlineb
rio_readlineb-cut_line maxlen rp f =
    let r = read_line-ReadsLine (suc maxlen) 0 rp f in (r.0 ∙ at_begin maxlen (stream rp), r.1, r.2)
  where
    at_begin :
        (k : ℕ) (s : List ℕ)
        → line_of (suc k) 0 s
          ≡ (elim s [ [] ↦ nothing | c ∷ s ↦ line (cut_line (suc k) (c ∷ s)).0 ])
    at_begin k [] = refl
    at_begin k (c ∷ s) = refl

at_none :
    (m : ℕ) (s : List ℕ) (q : Line × Rio)
    → s ≡ []
    → (q.0 ≡ (elim s [ [] ↦ nothing | c ∷ s ↦ line (cut_line (suc m) (c ∷ s)).0 ]))
      × (stream q.1 ≡ (cut_line (suc m) s).1)
      × NoFailure q.1.incoming
    → (q.0 ≡ nothing) × (stream q.1 ≡ []) × NoFailure q.1.incoming
at_none m [] q e x = x
at_none m (c ∷ s) q e x = cc

-- At the end of the stream, the loop of request_read_headers does not end, whatever the fuel, unless its buffer
-- holds the empty line.
pub headers_loop-hangs :
    (m k : ℕ) (buf : List ℕ) (rp : Rio)
    → NoFailure rp.incoming
    → stream rp ≡ []
    → same_word buf empty_line ≡ false
    → headers_loop (suc m) k buf rp ≡ none
unfolding headers_loop headers_next
headers_loop-hangs m zero buf rp f e h = refl
headers_loop-hangs m (suc k) buf rp f e h =
    let q = rio_readlineb (suc m) rp in
    let r = at_none m (stream rp) q e (rio_readlineb-cut_line m rp f) in
    let next : List ℕ → Rio → Option (Option Rio) = λ b r. headers_loop (suc m) k b r in
    ap (λ b. if b then some (some rp) else headers_next next buf q) h
    ∙ ap (λ x. headers_next next buf (x, q.1)) r.0
    ∙ headers_loop-hangs m k buf q.1 r.2 r.1 h
