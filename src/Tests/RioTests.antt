-- ===== src/Tests/RioTests.antt =====
-- webserver/common.c on a request line that comes in two pieces.
use ece334operating_system.Prelude.{◌≡◌, refl, none, [], ◌∷◌, same_word}
use ece334operating_system.Webserver.Rio.{
  chunk, interrupted, Rio, line, rio_readlineb, headers_loop,
}
use ece334operating_system.Webserver.Rio.Lines.{
  stream, NoFailure, rio_readlineb-cut_line, headers_loop-hangs,
}

-- "ab", an interrupt, and "c\nd".
abbrev in_pieces : Rio
in_pieces = record {
  unread = [];
  incoming = chunk 97 (98 ∷ []) ∷ interrupted ∷ chunk 99 (10 ∷ 100 ∷ []) ∷ [];
}

rio_readlineb-cut_line_example :
    ((rio_readlineb 8 in_pieces).0 ≡ line (97 ∷ 98 ∷ 99 ∷ 10 ∷ []))
    × (stream (rio_readlineb 8 in_pieces).1 ≡ 100 ∷ [])
    × NoFailure (rio_readlineb 8 in_pieces).1.incoming
rio_readlineb-cut_line_example = rio_readlineb-cut_line 7 in_pieces tt

-- The client has closed the connection.
abbrev closed : Rio
closed = record { unread = []; incoming = [] }

headers_loop-hangs_example : headers_loop 8 1000 [] closed ≡ none
unfolding same_word
headers_loop-hangs_example = headers_loop-hangs 7 1000 [] closed tt refl refl
