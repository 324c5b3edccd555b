-- ===== src/Webserver/Rio.antt =====
-- The buffered reading of webserver/common.c, and request_read_headers of webserver/request.c. What read()
-- returns for a descriptor is a list of results; behind it is the end of the file. An outer `none` is a loop
-- that has no fuel left.
pub mod Lines
use ece334operating_system.Prelude.{
  ℕ, zero, suc, ◌+◌, Bool, true, false, Option, none, some, List, [], ◌∷◌, ◌==◌, if◌then◌else◌,
  same_word,
}

-- What one call of read() returns: at least one byte, EINTR, or another error.
pub data Incoming : Type 0 where
  chunk : ℕ → List ℕ → Incoming
  interrupted failed : Incoming

-- struct rio, with the unread bytes of its buffer, and its descriptor
pub record Rio : Type 0 where
  pub unread : List ℕ
  pub incoming : List Incoming

-- The bytes that rio_readb copies, its 0 for the end of the file, or its -1.
pub data ReadB : Type 0 where
  got : List ℕ → ReadB
  at_end fails : ReadB

unfoldable pub first_bytes : ℕ → List ℕ → List ℕ
first_bytes zero l = []
first_bytes (suc n) [] = []
first_bytes (suc n) (c ∷ l) = c ∷ first_bytes n l

unfoldable pub after_bytes : ℕ → List ℕ → List ℕ
after_bytes zero l = l
after_bytes (suc n) [] = []
after_bytes (suc n) (c ∷ l) = after_bytes n l

unfoldable pub copy_bytes : ℕ → List ℕ → List Incoming → ReadB × Rio
unfolding first_bytes after_bytes
copy_bytes n l rest = (got (first_bytes n l), record { unread = after_bytes n l; incoming = rest })

-- The loop that fills an empty buffer.
unfoldable pub refill : ℕ → List Incoming → ReadB × Rio
unfolding copy_bytes
refill n [] = (at_end, record { unread = []; incoming = [] })
refill n (interrupted ∷ l) = refill n l
refill n (failed ∷ l) = (fails, record { unread = []; incoming = l })
refill n (chunk c cs ∷ l) = copy_bytes n (c ∷ cs) l

unfoldable pub readb_from : ℕ → List ℕ → List Incoming → ReadB × Rio
unfolding refill copy_bytes
readb_from n [] l = refill n l
readb_from n (c ∷ u) l = copy_bytes n (c ∷ u) l

unfoldable pub rio_readb : ℕ → Rio → ReadB × Rio
unfolding readb_from
rio_readb n rp = readb_from n rp.unread rp.incoming

-- What rio_readlineb leaves in usrbuf before the NUL, its 0 with usrbuf as it was, or its -1.
pub data Line : Type 0 where
  line : List ℕ → Line
  nothing broken : Line

unfoldable pub add_byte : ℕ → Line × Rio → Line × Rio
add_byte c (line l, rp) = (line (c ∷ l), rp)
add_byte c (nothing, rp) = (nothing, rp)
add_byte c (broken, rp) = (broken, rp)

-- `n` bytes are there, and the end of the file is reached.
abbrev pub line_end : ℕ → Line
line_end n = if n == 0 then nothing else line []

-- One byte was read, or none; then the loop goes on by `more`.
unfoldable pub take_byte : ℕ → (Rio → Line × Rio) → ReadB × Rio → Line × Rio
unfolding add_byte
take_byte n more (got [], rp) = (line_end n, rp)
take_byte n more (got (c ∷ l), rp) =
    let rest = add_byte c (more rp) in if c == 10 then (line (c ∷ []), rp) else rest
take_byte n more (at_end, rp) = (line_end n, rp)
take_byte n more (fails, rp) = (broken, rp)

-- The loop of rio_readlineb: `k` more bytes may be read, `n` are there.
unfoldable pub read_line : ℕ → ℕ → Rio → Line × Rio
unfolding take_byte rio_readb
read_line zero n rp = (line [], rp)
read_line (suc k) n rp = take_byte n (λ r. read_line k (n + 1) r) (rio_readb 1 rp)

unfoldable pub rio_readlineb : ℕ → Rio → Line × Rio
unfolding read_line
rio_readlineb maxlen rp = read_line maxlen 0 rp

abbrev pub maxline : ℕ
maxline = 8192

-- "\r\n"
abbrev pub empty_line : List ℕ
empty_line = 13 ∷ 10 ∷ []

-- The exit of the program, or the next round with what is in the buffer.
unfoldable pub headers_next :
    (List ℕ → Rio → Option (Option Rio)) → List ℕ → Line × Rio → Option (Option Rio)
headers_next next buf (line l, rp) = next l rp
headers_next next buf (nothing, rp) = next buf rp
headers_next next buf (broken, rp) = some none

-- The loop of request_read_headers, from its test on, with the size of its buffer.
unfoldable pub headers_loop : ℕ → ℕ → List ℕ → Rio → Option (Option Rio)
unfolding headers_next rio_readlineb same_word
headers_loop maxlen zero buf rp = none
headers_loop maxlen (suc k) buf rp =
    let again = headers_next (λ b r. headers_loop maxlen k b r) buf (rio_readlineb maxlen rp) in
    if same_word buf empty_line then some (some rp) else again

-- The first line is read into a buffer that was not set.
unfoldable pub request_read_headers : ℕ → List ℕ → Rio → Option (Option Rio)
unfolding headers_next headers_loop rio_readlineb
request_read_headers fuel buf rp =
    headers_next (λ b r. headers_loop maxline fuel b r) buf (rio_readlineb maxline rp)
