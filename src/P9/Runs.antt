-- ===== src/P9/Runs.antt =====
-- Runs of the messages of src/c/p9.c, and the theorems at concrete messages.
use isiki.Prelude.{ℕ, ◌≡◌, refl, none, some, List, [], ◌∷◌, ◌++◌, arith, codes}
use isiki.P9.{
  Text, build_tversion, build_tattach, build_twalk, build_topen, build_tread, build_tclunk,
  build_twrite, build_tcreate, put_u32, message, parse_rread,
}
use isiki.P9.Frame.{IsFrame, messages-IsFrame}
use isiki.P9.Reply.{parse_rread-message}

clunk_bytes : build_tclunk 1 0x0102_0304 ≡ 11 ∷ 0 ∷ 0 ∷ 0 ∷ 120 ∷ 1 ∷ 0 ∷ 4 ∷ 3 ∷ 2 ∷ 1 ∷ []
unfolding build_tclunk
clunk_bytes = refl

-- An Rread of two bytes, and an Rerror.
abbrev two_bytes : List ℕ
two_bytes = 13 ∷ 0 ∷ 0 ∷ 0 ∷ 117 ∷ 0 ∷ 0 ∷ 2 ∷ 0 ∷ 0 ∷ 0 ∷ 72 ∷ 105 ∷ []

abbrev no_entry : List ℕ
no_entry = 11 ∷ 0 ∷ 0 ∷ 0 ∷ 107 ∷ 0 ∷ 0 ∷ 2 ∷ 0 ∷ 78 ∷ 111 ∷ []

-- An Rread whose count is 2^32 - 1, of which 11 bytes are received.
abbrev overlong : List ℕ
overlong = 11 ∷ 0 ∷ 0 ∷ 0 ∷ 117 ∷ 0 ∷ 0 ∷ 255 ∷ 255 ∷ 255 ∷ 255 ∷ []

rread_two : parse_rread two_bytes 13 ≡ some (72 ∷ 105 ∷ [])
unfolding parse_rread
rread_two = refl

rread_short : parse_rread two_bytes 12 ≡ none
unfolding parse_rread
rread_short = refl

messages-IsFrame_example :
    IsFrame 100 1 (build_tversion 1 5 (codes "a"))
    × IsFrame 104 1 (build_tattach 1 2 3 (codes "a") (codes "b") 5)
    × IsFrame 110 1 (build_twalk 1 2 3 (codes "c" ∷ []))
    × IsFrame 112 1 (build_topen 1 2 5)
    × IsFrame 114 1 (build_tcreate 1 2 (codes "a") 5 4)
    × IsFrame 116 1 (build_tread 1 2 4 5)
    × IsFrame 118 1 (build_twrite 1 2 4 (7 ∷ []))
    × IsFrame 120 1 (build_tclunk 1 2)
messages-IsFrame_example =
    messages-IsFrame 1 2 3 4 5 (codes "a") (codes "b") (codes "c" ∷ []) (7 ∷ [])

abbrev names : List Text
names = codes "src" ∷ codes "lisp" ∷ []

parse_rread-message_example :
    parse_rread (message 117 0 (put_u32 2 ++ codes "Hi") ++ codes "old") 13 ≡ some (codes "Hi")
parse_rread-message_example = parse_rread-message 0 (codes "Hi") (codes "old") 13 (omega arith)

-- 11 bytes are taken for a whole Rread whose count is 2^32 - 1.
rread_overlong : parse_rread overlong 11 ≡ some []
unfolding parse_rread
rread_overlong = refl
