-- ===== src/Disasm/Text.antt =====
-- src/c/disasm.c: the text builder d_sb_t and its numbers, the names of registers and instructions.
pub mod Room
pub mod Hex
use isiki.Prelude.{
  ℕ, zero, suc, ◌+◌, ◌-◌, ◌*◌, ◌/◌, ◌%◌, ◌^◌, Bool, true, false, ◌&&◌, ◌||◌, List, [], ◌∷◌, ◌++◌,
  leb, ltb, ◌==◌, if◌then◌else◌, length, get_or, codes,
}
use isiki.Prelude.Int.{ℤ, pos, negsuc}

-- d_sb_t: `size` is the room of the buffer, `text` what stands before its terminating NUL.
pub record Sb : Type 0 where
  pub size : ℕ
  pub text : List ℕ

abbrev pub sb_init : ℕ → Sb
sb_init size = record { size = size; text = [] }

unfoldable pub sb_char : Sb → ℕ → Sb
sb_char sb c =
    if sb.size == 0 || leb sb.size (length sb.text + 1)
    then sb
    else record sb { text = sb.text ++ c ∷ [] }

unfoldable pub sb_str : Sb → List ℕ → Sb
sb_str sb [] = sb
sb_str sb (c ∷ s) = sb_str (sb_char sb c) s

unfoldable pub hex_digit : ℕ → ℕ
hex_digit digit = if ltb digit 10 then b'0' + digit else b'a' + (digit - 10)

-- The loop of sb_hex, the lowest digit first; `room` is 16 - n.
unfoldable pub hex_digits : ℕ → ℕ → List ℕ
unfolding hex_digit
hex_digits zero value = []
hex_digits (suc room) value =
    let rest = hex_digits room (value / 2 ^ 4) in
    if value == 0 then [] else hex_digit (value % 2 ^ 4) ∷ rest

-- The digits are put out from the last.
unfoldable pub put_reversed : Sb → List ℕ → Sb
put_reversed sb [] = sb
put_reversed sb (c ∷ s) = sb_char (put_reversed sb s) c

unfoldable pub sb_hex : Sb → ℕ → Sb
unfolding hex_digits put_reversed
sb_hex sb value =
    let sb' = sb_str sb (codes "0x") in
    if value == 0 then sb_char sb' b'0' else put_reversed sb' (hex_digits 16 value)

-- The loop on `needed`, on fuel: a 64-bit value has at most 15 rounds.
unfoldable pub needed_digits : ℕ → ℕ → ℕ
needed_digits zero v = 1
needed_digits (suc fuel) v =
    let rest = needed_digits fuel (v / 2 ^ 4) in if ltb 0xF v then rest + 1 else 1

unfoldable pub hex_pad_loop : Sb → ℕ → ℕ → Sb
unfolding hex_digit
hex_pad_loop sb value zero = sb
hex_pad_loop sb value (suc i) =
    hex_pad_loop (sb_char sb (hex_digit (value / 2 ^ (i * 4) % 2 ^ 4))) value i

unfoldable pub sb_hex_pad : Sb → ℕ → ℕ → Sb
unfolding needed_digits hex_pad_loop
sb_hex_pad sb value digits =
    let needed = needed_digits 16 value in
    hex_pad_loop sb value (if ltb digits needed then needed else digits)

unfoldable pub sb_shex : Sb → ℤ → Sb
unfolding sb_hex
sb_shex sb (pos n) = sb_hex sb n
sb_shex sb (negsuc n) = sb_hex (sb_char sb b'-') (n + 1)

unfoldable pub sb_disp : Sb → ℤ → Sb
unfolding sb_hex
sb_disp sb (pos zero) = sb
sb_disp sb (pos (suc n)) = sb_hex (sb_char sb b'+') (suc n)
sb_disp sb (negsuc n) = sb_hex (sb_char sb b'-') (n + 1)

-- d_strcpy: the text that the copy holds.
unfoldable pub copied : ℕ → List ℕ → List ℕ
copied size src = (sb_str (sb_init size) src).text

abbrev pub reg64 : List (List ℕ)
reg64 =
    codes "rax"
    ∷ codes "rcx"
    ∷ codes "rdx"
    ∷ codes "rbx"
    ∷ codes "rsp"
    ∷ codes "rbp"
    ∷ codes "rsi"
    ∷ codes "rdi"
    ∷ codes "r8"
    ∷ codes "r9"
    ∷ codes "r10"
    ∷ codes "r11"
    ∷ codes "r12"
    ∷ codes "r13"
    ∷ codes "r14"
    ∷ codes "r15"
    ∷ []

abbrev pub reg32 : List (List ℕ)
reg32 =
    codes "eax"
    ∷ codes "ecx"
    ∷ codes "edx"
    ∷ codes "ebx"
    ∷ codes "esp"
    ∷ codes "ebp"
    ∷ codes "esi"
    ∷ codes "edi"
    ∷ codes "r8d"
    ∷ codes "r9d"
    ∷ codes "r10d"
    ∷ codes "r11d"
    ∷ codes "r12d"
    ∷ codes "r13d"
    ∷ codes "r14d"
    ∷ codes "r15d"
    ∷ []

unfoldable pub regname : ℕ → Bool → List ℕ
regname reg wide = if wide then get_or reg64 (reg % 16) [] else get_or reg32 (reg % 16) []

abbrev pub group1 : List (List ℕ)
group1 =
    codes "add"
    ∷ codes "or"
    ∷ codes "adc"
    ∷ codes "sbb"
    ∷ codes "and"
    ∷ codes "sub"
    ∷ codes "xor"
    ∷ codes "cmp"
    ∷ []

abbrev pub jcc : List (List ℕ)
jcc =
    codes "jo"
    ∷ codes "jno"
    ∷ codes "jb"
    ∷ codes "jae"
    ∷ codes "je"
    ∷ codes "jne"
    ∷ codes "jbe"
    ∷ codes "ja"
    ∷ codes "js"
    ∷ codes "jns"
    ∷ codes "jp"
    ∷ codes "jnp"
    ∷ codes "jl"
    ∷ codes "jge"
    ∷ codes "jle"
    ∷ codes "jg"
    ∷ []

-- `op & 0x38` picks the name.
unfoldable pub alu_name : ℕ → List ℕ
alu_name op = get_or group1 (op / 8 % 8) []
