-- ===== src/P9/Reply.antt =====
-- What the parsers of src/c/p9.c accept.
use isiki.Prelude.{
  ℕ, ◌+◌, ◌%◌, ◌^◌, ◌≤◌, ◌≡◌, ◌<◌, ◌≢◌, refl, ap, ◌∙◌, Bool, true, false, Option, none, some, List,
  ◌++◌, arith, leb, length, take, take-append, drop, if◌then◌else◌,
}
use isiki.P9.{
  Text, put_u8, put_u16, put_u32, write_header, message, get_u8, get_u32, check_min_len, has_type,
  parse_rversion, parse_rattach, parse_rwalk, parse_ropen, parse_rread, parse_rclunk, parse_rwrite,
  parse_rcreate, check_error,
}
use isiki.P9.Bytes.{get_u32-put_u32}

-- The message has at least `required` bytes and its type is `type`.
abbrev pub Accepts : List ℕ → ℕ → ℕ → ℕ → Type 0
Accepts buf len required type = (required ≤ len) × (get_u8 buf 4 ≡ type)

has_type-Accepts :
    (buf : List ℕ) (len required type : ℕ)
    → has_type buf len required type ≡ true
    → Accepts buf len required type
unfolding has_type check_min_len
has_type-Accepts buf len required type h = ground arith

wrong_type :
    (buf : List ℕ) (len required type : ℕ)
    → get_u8 buf 4 ≡ 107
    → type ≢ 107
    → has_type buf len required type ≡ false
unfolding has_type check_min_len
wrong_type buf len required type e h = ground arith

if_false {ℓ} : {A : Type ℓ} {b : Bool} (x y : A) → b ≡ false → (if b then x else y) ≡ y
if_false x y e = ap (λ (b : Bool). if b then x else y) e

error_type :
    (buf : List ℕ) (len errbuf_cap : ℕ) (text : Text)
    → check_error buf len errbuf_cap ≡ some text
    → get_u8 buf 4 ≡ 107
unfolding check_error has_type
error_type buf len errbuf_cap text h = ground arith

-- Whatever `check_error` takes for an Rerror, no parser of another reply accepts.
pub check_error_excludes :
    (buf : List ℕ) (len errbuf_cap version_cap : ℕ) (text : Text)
    → check_error buf len errbuf_cap ≡ some text
    → (parse_rversion buf len version_cap ≡ none)
      × (parse_rattach buf len ≡ false)
      × (parse_rwalk buf len ≡ none)
      × (parse_ropen buf len ≡ false)
      × (parse_rcreate buf len ≡ false)
      × (parse_rread buf len ≡ none)
      × (parse_rwrite buf len ≡ none)
      × (parse_rclunk buf len ≡ false)
unfolding check_error parse_rversion parse_rattach parse_rwalk parse_ropen parse_rcreate parse_rread
    parse_rwrite parse_rclunk
check_error_excludes buf len errbuf_cap version_cap text h =
    let e : get_u8 buf 4 ≡ 107 = error_type buf len errbuf_cap text h in
    (
      if_false _ _ (wrong_type buf len 13 101 e (omega arith)),
      wrong_type buf len 20 105 e (omega arith),
      if_false _ _ (wrong_type buf len 9 111 e (omega arith)),
      wrong_type buf len 24 113 e (omega arith),
      wrong_type buf len 24 115 e (omega arith),
      if_false _ _ (wrong_type buf len 11 117 e (omega arith)),
      if_false _ _ (wrong_type buf len 11 119 e (omega arith)),
      wrong_type buf len 7 121 e (omega arith),
    )

-- How a reply with these fields is parsed.
pub parse_rread_lem :
    (buf : List ℕ) (len n : ℕ) (bytes : List ℕ)
    → get_u8 buf 4 ≡ 117
    → get_u32 buf 7 ≡ n
    → take n (drop 11 buf) ≡ bytes
    → 11 + n < 2 ^ 32
    → parse_rread buf len ≡ (if leb (11 + n) len then some bytes else none)
unfolding parse_rread has_type check_min_len
parse_rread_lem buf len n bytes type count found small =
    rw (type, count, found) (tests len n (some bytes) small)
  where
    tests :
        (len n : ℕ) (result : Option (List ℕ))
        → 11 + n < 2 ^ 32
        → (if (if leb 11 len then true else false)
            then (if leb ((11 + n) % 2 ^ 32) len then result else none)
            else none)
          ≡ (if leb (11 + n) len then result else none)
    tests len n result h = ground arith

-- An Rread message that carries some bytes, fewer than 2^32 - 11, at the front of the receive buffer is
-- read back: `parse_rread` returns exactly its bytes, whatever is left in the buffer behind them, if the
-- whole message is received, and rejects it if less of it is received.
pub parse_rread-message :
    (tag : ℕ) (bytes rest : List ℕ) (len : ℕ)
    → 11 + length bytes < 2 ^ 32
    → parse_rread (message 117 tag (put_u32 (length bytes) ++ bytes) ++ rest) len
      ≡ (if leb (11 + length bytes) len then some bytes else none)
unfolding message write_header put_u8 put_u16 put_u32 get_u8
parse_rread-message tag bytes rest len small =
    let n : ℕ = length bytes in
    let header : List ℕ = write_header ((7 + length (put_u32 n ++ bytes)) % 2 ^ 32) 117 tag in
    parse_rread_lem (header ++ (put_u32 n ++ (bytes ++ rest))) len n bytes refl
      (get_u32-put_u32 header (bytes ++ rest) 7 n refl ∙ omega arith) (take-append bytes rest) small
