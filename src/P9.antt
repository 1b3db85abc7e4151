-- ===== src/P9.antt =====
-- src/c/p9.c: the messages of the 9P2000.u protocol, written and read as bytes.
-- A `p9_put_` routine returns the bytes that it writes at `*pos`; the position moves by their
-- number. A string is the list of its bytes before the NUL.
pub mod Bytes
pub mod Frame
pub mod Fields
pub mod Reply
mod Runs
use isiki.Prelude.{
  ℕ, zero, suc, ◌+◌, ◌-◌, ◌*◌, ◌/◌, ◌%◌, ◌^◌, Bool, true, false, Option, none, some, List, [], ◌∷◌,
  ◌++◌, ltb, leb, ◌==◌, if◌then◌else◌, length, get_or, take, drop,
}
use Prim.Native.Nat.{bit_or}

abbrev pub Text : Type 0
Text = List ℕ

abbrev pub header_size : ℕ
header_size = 7

abbrev pub qid_size : ℕ
qid_size = 13

unfoldable pub put_u8 : ℕ → List ℕ
put_u8 v = (v % 2 ^ 8) ∷ []

unfoldable pub put_u16 : ℕ → List ℕ
put_u16 v = (v % 2 ^ 8) ∷ (v / 2 ^ 8 % 2 ^ 8) ∷ []

unfoldable pub put_u32 : ℕ → List ℕ
put_u32 v = (v % 2 ^ 8) ∷ (v / 2 ^ 8 % 2 ^ 8) ∷ (v / 2 ^ 16 % 2 ^ 8) ∷ (v / 2 ^ 24 % 2 ^ 8) ∷ []

-- The bytes i, i + 1, ..., of which `rounds` are left.
unfoldable pub put_u64_loop : ℕ → ℕ → ℕ → List ℕ
put_u64_loop zero i v = []
put_u64_loop (suc rounds) i v = (v / 2 ^ (8 * i) % 2 ^ 8) ∷ put_u64_loop rounds (suc i) v

unfoldable pub put_u64 : ℕ → List ℕ
unfolding put_u64_loop
put_u64 v = put_u64_loop 8 0 v

-- The length field has 16 bits; all bytes of the string follow it.
unfoldable pub put_string : Text → List ℕ
unfolding put_u16
put_string s = put_u16 (length s % 2 ^ 32 % 2 ^ 16) ++ s

-- The readers take the receive buffer and the position; bytes behind the buffer read as 0.
unfoldable pub get_u8 : List ℕ → ℕ → ℕ
get_u8 buf pos = get_or buf pos 0

unfoldable pub get_u16 : List ℕ → ℕ → ℕ
get_u16 buf pos = bit_or (get_or buf pos 0) (get_or buf (pos + 1) 0 * 2 ^ 8)

unfoldable pub get_u32 : List ℕ → ℕ → ℕ
get_u32 buf pos =
    bit_or
      (bit_or (bit_or (get_or buf pos 0) (get_or buf (pos + 1) 0 * 2 ^ 8))
        (get_or buf (pos + 2) 0 * 2 ^ 16))
      (get_or buf (pos + 3) 0 * 2 ^ 24)

-- The bytes copied to `out`, of capacity `out_cap`, and the position behind the string; no caller
-- passes a null `out`.
unfoldable pub get_string : List ℕ → ℕ → ℕ → Text × ℕ
unfolding get_u16
get_string buf pos out_cap =
    let len = get_u16 buf pos in
    let room = (out_cap + 2 ^ 32 - 1) % 2 ^ 32 in
    let copy_len = if ltb room len then room else len in
    (take copy_len (drop (pos + 2) buf), pos + 2 + len)

unfoldable pub write_header : ℕ → ℕ → ℕ → List ℕ
unfolding put_u8 put_u16 put_u32
write_header total_size type tag = put_u32 total_size ++ (put_u8 type ++ put_u16 tag)

-- How every builder ends: the body stands behind the header, which is written last.
unfoldable pub message : ℕ → ℕ → List ℕ → List ℕ
unfolding write_header
message type tag body = write_header ((header_size + length body) % 2 ^ 32) type tag ++ body

unfoldable pub build_tversion : ℕ → ℕ → Text → List ℕ
unfolding message put_u32 put_string
build_tversion tag msize version = message 100 tag (put_u32 msize ++ put_string version)

unfoldable pub build_tattach : ℕ → ℕ → ℕ → Text → Text → ℕ → List ℕ
unfolding message put_u32 put_string
build_tattach tag fid afid uname aname n_uname =
    message 104 tag
      (put_u32 fid ++ (put_u32 afid ++ (put_string uname ++ (put_string aname ++ put_u32 n_uname))))

unfoldable pub put_strings : List Text → List ℕ
unfolding put_string
put_strings [] = []
put_strings (s ∷ names) = put_string s ++ put_strings names

-- `nwname` is the number of names in `wnames`.
unfoldable pub build_twalk : ℕ → ℕ → ℕ → List Text → List ℕ
unfolding message put_u32 put_u16 put_strings
build_twalk tag fid newfid wnames =
    message 110 tag
      (put_u32 fid ++ (put_u32 newfid ++ (put_u16 (length wnames) ++ put_strings wnames)))

unfoldable pub build_topen : ℕ → ℕ → ℕ → List ℕ
unfolding message put_u32 put_u8
build_topen tag fid mode = message 112 tag (put_u32 fid ++ put_u8 mode)

unfoldable pub build_tread : ℕ → ℕ → ℕ → ℕ → List ℕ
unfolding message put_u32 put_u64
build_tread tag fid offset count =
    message 116 tag (put_u32 fid ++ (put_u64 offset ++ put_u32 count))

unfoldable pub build_tclunk : ℕ → ℕ → List ℕ
unfolding message put_u32
build_tclunk tag fid = message 120 tag (put_u32 fid)

-- The `count` bytes of `data`.
unfoldable pub build_twrite : ℕ → ℕ → ℕ → List ℕ → List ℕ
unfolding message put_u32 put_u64
build_twrite tag fid offset bytes =
    message 118 tag (put_u32 fid ++ (put_u64 offset ++ (put_u32 (length bytes) ++ bytes)))

unfoldable pub build_tcreate : ℕ → ℕ → Text → ℕ → ℕ → List ℕ
unfolding message put_u32 put_u8 put_string
build_tcreate tag fid name perm mode =
    message 114 tag
      (put_u32 fid ++ (put_string name ++ (put_u32 perm ++ (put_u8 mode ++ put_string []))))

unfoldable pub check_min_len : ℕ → ℕ → Bool
check_min_len len required = leb required len

-- The two tests that every parser starts with: the length, then the type.
unfoldable pub has_type : List ℕ → ℕ → ℕ → ℕ → Bool
unfolding check_min_len get_u8
has_type buf len required type = if check_min_len len required then get_u8 buf 4 == type else false

-- The parsers take the receive buffer and the number of bytes received in it.
unfoldable pub parse_rversion : List ℕ → ℕ → ℕ → Option (ℕ × Text)
unfolding has_type get_u32 get_string
parse_rversion buf len version_cap =
    if has_type buf len (header_size + 4 + 2) 101
    then some (get_u32 buf header_size, (get_string buf (header_size + 4) version_cap).0)
    else none

unfoldable pub parse_rattach : List ℕ → ℕ → Bool
unfolding has_type
parse_rattach buf len = has_type buf len (header_size + qid_size) 105

unfoldable pub parse_rwalk : List ℕ → ℕ → Option ℕ
unfolding has_type get_u16
parse_rwalk buf len =
    if has_type buf len (header_size + 2) 111 then some (get_u16 buf header_size) else none

unfoldable pub parse_ropen : List ℕ → ℕ → Bool
unfolding has_type
parse_ropen buf len = has_type buf len (header_size + qid_size + 4) 113

-- The `count` bytes at `*out_data`.
unfoldable pub parse_rread : List ℕ → ℕ → Option (List ℕ)
unfolding has_type check_min_len get_u32
parse_rread buf len =
    let count = get_u32 buf header_size in
    if has_type buf len (header_size + 4) 117
    then (if check_min_len len ((header_size + 4 + count) % 2 ^ 32)
        then some (take count (drop (header_size + 4) buf))
        else none)
    else none

unfoldable pub parse_rclunk : List ℕ → ℕ → Bool
unfolding has_type
parse_rclunk buf len = has_type buf len header_size 121

unfoldable pub parse_rwrite : List ℕ → ℕ → Option ℕ
unfolding has_type get_u32
parse_rwrite buf len =
    if has_type buf len (header_size + 4) 119 then some (get_u32 buf header_size) else none

unfoldable pub parse_rcreate : List ℕ → ℕ → Bool
unfolding has_type
parse_rcreate buf len = has_type buf len (header_size + qid_size + 4) 115

-- The text of an Rerror; `none` for any other message.
unfoldable pub check_error : List ℕ → ℕ → ℕ → Option Text
unfolding has_type get_string
check_error buf len errbuf_cap =
    if has_type buf len (header_size + 2) 107
    then some (get_string buf header_size errbuf_cap).0
    else none
