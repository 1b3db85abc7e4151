-- ===== src/Disasm/Bounds.antt =====
-- How far os_disasm_item of src/c/disasm.c reads.
use isiki.Prelude.{
  ℕ, zero, suc, ◌+◌, ◌-◌, ◌*◌, ◌/◌, ◌%◌, ◌^◌, ◌≤◌, ◌<◌, ◌≡◌, refl, inl, inr, Bool, true, false, not,
  ◌&&◌, ◌||◌, Option, none, some, List, [], ◌∷◌, arith, leb, ltb, ◌==◌, if◌then◌else◌, if_rule,
  if_cases, length, drop, length-drop, get_or, Bool-cases, ltb→lt, ltb→ge,
}
use isiki.Disasm.Operand.{
  Cursor, read_u8, read_u32, read_u64, Memory, read_sib, read_base, read_disp, Operand,
  decode_modrm,
}
use isiki.Disasm.Switch.{
  Decoded, store_insn, load_insn, push_pop, group1_insn, mov_imm_insn, mov_reg_imm, branch_insn,
  group5_insn, group3_insn, two_byte_insn, decode, is_store, is_load, is_plain, is_extension,
  group5_names, peek_digit,
}
use isiki.Disasm.Item.{
  all_printable, insn, data_item, bad, Insn, checked_len, embedded_string_len, data_insn, emit_bad,
  finish, decode_insn, skip_rex, os_disasm_item, max_data_bytes,
}

-- From `c` to `d` at most `n` bytes are read, and they are bytes of the code.
abbrev Reads : ℕ → Cursor → Cursor → Type 0
Reads n c d = (d.at + length d.rest ≡ c.at + length c.rest) × (c.at ≤ d.at) × (d.at ≤ c.at + n)

Reads-next :
    (m n : ℕ) {k : ℕ} (c d e : Cursor) → Reads m c d → Reads n d e → m + n ≤ k → Reads k c e
Reads-next m n c d e h k l = omega arith

read_u8-Reads : (c : Cursor) → Reads 1 c (read_u8 c).1
unfolding read_u8
read_u8-Reads c = cases c.rest c refl
  where
    cases : (bytes : List ℕ) (c : Cursor) → c.rest ≡ bytes → Reads 1 c (read_u8 c).1
    cases [] c e = rw e (omega arith)
    cases (b ∷ bytes) c e = rw e (omega arith)

read_u32-Reads : (c : Cursor) → Reads 4 c (read_u32 c).1
unfolding read_u32
read_u32-Reads c =
    let c₁ : Cursor = (read_u8 c).1 in
    let c₂ : Cursor = (read_u8 c₁).1 in
    let c₃ : Cursor = (read_u8 c₂).1 in
    omega (arith, read_u8-Reads c, read_u8-Reads c₁, read_u8-Reads c₂, read_u8-Reads c₃)

read_u64-Reads : (c : Cursor) → Reads 8 c (read_u64 c).1
unfolding read_u64
read_u64-Reads c = omega (arith, read_u32-Reads c, read_u32-Reads (read_u32 c).1)

-- A displacement without a base stands only with the mode that has no other.
abbrev base_bytes : ℕ → ℕ
base_bytes mod_bits = if mod_bits == 0 then 5 else 1

abbrev disp_bytes : ℕ → ℕ
disp_bytes mod_bits = if mod_bits == 0 then 0 else 4

read_sib-Reads :
    (mod_bits rex : ℕ) (c : Cursor) → Reads (base_bytes mod_bits) c (read_sib mod_bits rex c).1
unfolding read_sib
read_sib-Reads mod_bits rex c =
    let c₁ : Cursor = (read_u8 c).1 in
    elim (Bool-cases (mod_bits == 0)) [
      | inl e ↦ rw e (elim (Bool-cases ((read_u8 c).0 % 8 == 5)) [
        | inl f ↦ rw f (omega (arith, read_u8-Reads c, read_u32-Reads c₁))
        | inr f ↦ rw f (omega (arith, read_u8-Reads c))
      ])
      | inr e ↦ rw e (elim (Bool-cases ((read_u8 c).0 % 8 == 5)) [
        | inl f ↦ rw f (read_u8-Reads c)
        | inr f ↦ rw f (read_u8-Reads c)
      ])
    ]

read_base-Reads :
    (mod_bits rm rex : ℕ) (c : Cursor)
    → Reads (base_bytes mod_bits) c (read_base mod_bits rm rex c).1
unfolding read_base
read_base-Reads mod_bits rm rex c = elim (Bool-cases (rm == 4)) [
  | inl e ↦ rw e (read_sib-Reads mod_bits rex c)
  | inr e ↦ elim (Bool-cases (rm == 5)) [
    | inl f ↦ elim (Bool-cases (mod_bits == 0)) [
      | inl g ↦ rw (e, f, g) (omega (arith, read_u32-Reads c))
      | inr g ↦ rw (e, f, g) (omega arith)
    ]
    | inr f ↦ elim (Bool-cases (mod_bits == 0)) [
      | inl g ↦ rw (e, f, g) (omega arith)
      | inr g ↦ rw (e, f, g) (omega arith)
    ]
  ]
]

read_disp-Reads :
    (mod_bits : ℕ) (memory : Memory) (c : Cursor)
    → Reads (disp_bytes mod_bits) c (read_disp mod_bits memory c).1
unfolding read_disp
read_disp-Reads zero memory c = omega arith
read_disp-Reads (suc zero) memory c = omega (arith, read_u8-Reads c)
read_disp-Reads (suc (suc zero)) memory c = read_u32-Reads c
read_disp-Reads (suc (suc (suc n))) memory c = ground arith

memory_bytes : (mod_bits : ℕ) → base_bytes mod_bits + disp_bytes mod_bits ≤ 5
memory_bytes mod_bits = ground arith

decode_modrm-Reads :
    (rex : ℕ) (wide : Bool) (c : Cursor) → Reads 6 c (decode_modrm rex wide c).cursor
unfolding decode_modrm
decode_modrm-Reads rex wide c =
    let c₁ : Cursor = (read_u8 c).1 in
    let m : ℕ = (read_u8 c).0 / 64 in
    let rm : ℕ = (read_u8 c).0 % 8 in
    let b : Memory × Cursor = read_base m rm rex c₁ in
    if_rule (λ (o : Operand). Reads 6 c o.cursor) (m == 3) _ _ (omega (arith, read_u8-Reads c))
      (omega (
        arith,
        read_u8-Reads c,
        read_base-Reads m rm rex c₁,
        read_disp-Reads m b.0 b.1,
        memory_bytes m,
      ))

-- The switch reads at most ten bytes behind the opcode.
abbrev Decodes : Cursor → Decoded → Type 0
Decodes c d = Reads 10 c d.cursor

module _ (rex : ℕ) (wide : Bool) (c : Cursor) where
  store_insn-Decodes : (op : ℕ) → Decodes c (store_insn op rex wide c)
  unfolding store_insn
  store_insn-Decodes op = omega (arith, decode_modrm-Reads rex wide c)

  load_insn-Decodes : (op : ℕ) → Decodes c (load_insn op rex wide c)
  unfolding load_insn
  load_insn-Decodes op = omega (arith, decode_modrm-Reads rex wide c)

  group1_insn-Decodes : (op : ℕ) → Decodes c (group1_insn op rex wide c)
  unfolding group1_insn
  group1_insn-Decodes op =
      let d : Cursor = (decode_modrm rex wide c).cursor in
      if_rule (Decodes c) (op == 0x83) _ _
        (omega (arith, decode_modrm-Reads rex wide c, read_u8-Reads d))
        (omega (arith, decode_modrm-Reads rex wide c, read_u32-Reads d))

  mov_imm_insn-Decodes : Decodes c (mov_imm_insn rex wide c)
  unfolding mov_imm_insn
  mov_imm_insn-Decodes =
      omega (arith, decode_modrm-Reads rex wide c, read_u32-Reads (decode_modrm rex wide c).cursor)

  group5_insn-Decodes : Decodes c (group5_insn rex wide c)
  unfolding group5_insn
  group5_insn-Decodes =
      let wide' : Bool = leb 2 (peek_digit c) || wide in
      if_rule (Decodes c) (length (get_or group5_names (peek_digit c) []) == 0) _ _
        (omega (arith, decode_modrm-Reads rex wide' c))
        (omega (arith, decode_modrm-Reads rex wide' c))

  group3_insn-Decodes : Decodes c (group3_insn rex wide c)
  unfolding group3_insn
  group3_insn-Decodes =
      let d : Cursor = (decode_modrm rex wide c).cursor in
      if_rule (Decodes c) (peek_digit c == 0) _ _
        (omega (arith, decode_modrm-Reads rex wide c, read_u32-Reads d))
        (omega (arith, decode_modrm-Reads rex wide c))

  push_pop-Decodes : (op : ℕ) → Decodes c (push_pop op rex c)
  unfolding push_pop
  push_pop-Decodes op = omega arith

  mov_reg_imm-Decodes : (op : ℕ) → Decodes c (mov_reg_imm op rex wide c)
  unfolding mov_reg_imm
  mov_reg_imm-Decodes op = elim (Bool-cases wide) [
    | inl e ↦ rw e (omega (arith, read_u64-Reads c))
    | inr e ↦ rw e (omega (arith, read_u32-Reads c))
  ]

module _ (code_addr code_len : ℕ) where
  two_byte_insn-Decodes :
      (rex : ℕ) (wide : Bool) (c : Cursor) → Decodes c (two_byte_insn code_addr code_len rex wide c)
  unfolding two_byte_insn branch_insn
  two_byte_insn-Decodes rex wide c =
      let c₁ : Cursor = (read_u8 c).1 in
      let op2 : ℕ = (read_u8 c).0 in
      let long : Reads 10 c (read_u32 c₁).1 = omega (arith, read_u8-Reads c, read_u32-Reads c₁) in
      let wide_operand : Reads 10 c (decode_modrm rex wide c₁).cursor =
        omega (arith, read_u8-Reads c, decode_modrm-Reads rex wide c₁) in
      let flag_operand : Reads 10 c (decode_modrm rex false c₁).cursor =
        omega (arith, read_u8-Reads c, decode_modrm-Reads rex false c₁) in
      let short : Reads 10 c c₁ = omega (arith, read_u8-Reads c) in
      if_rule (Decodes c) (leb 0x80 op2 && leb op2 0x8F) _ _ long (
        if_rule (Decodes c) (leb 0x90 op2 && leb op2 0x9F) _ _ flag_operand (
          if_rule (Decodes c) (op2 == 0x1F) _ _ wide_operand (
            if_rule (Decodes c) (op2 == 0xA2) _ _ short (
              if_rule (Decodes c) (op2 == 0xAF) _ _ wide_operand
                (if_rule (Decodes c) (is_extension op2) _ _ wide_operand short)))))

  decode-Decodes :
      (op rex : ℕ) (wide : Bool) (c : Cursor) → Decodes c (decode code_addr code_len op rex wide c)
  unfolding decode branch_insn
  decode-Decodes op rex wide c =
      let long : Reads 10 c (read_u32 c).1 = omega (arith, read_u32-Reads c) in
      let short : Reads 10 c (read_u8 c).1 = omega (arith, read_u8-Reads c) in
      let none_read : Reads 10 c c = omega arith in
      let P : Decoded → Type 0 = Decodes c in
      if_rule P (is_store op) _ _ (store_insn-Decodes rex wide c op) (
        if_rule P (is_load op) _ _ (load_insn-Decodes rex wide c op) (
          if_rule P (leb 0x50 op && leb op 0x5F) _ _ (push_pop-Decodes rex wide c op) (
            if_rule P (op == 0x83 || op == 0x81) _ _ (group1_insn-Decodes rex wide c op) (
              if_rule P (op == 0xC7) _ _ (mov_imm_insn-Decodes rex wide c) (
                if_rule P (leb 0xB8 op && leb op 0xBF) _ _ (mov_reg_imm-Decodes rex wide c op) (
                  if_rule P (is_plain op) _ _ none_read (
                    if_rule P (op == 0xE8 || op == 0xE9) _ _ long (
                      if_rule P (op == 0xEB) _ _ short (
                        if_rule P (leb 0x70 op && leb op 0x7F) _ _ short (
                          if_rule P (op == 0xFF) _ _ (group5_insn-Decodes rex wide c) (
                            if_rule P (op == 0xF7) _ _ (group3_insn-Decodes rex wide c) (
                              if_rule P (op == 0x0F) _ _ (two_byte_insn-Decodes rex wide c)
                                none_read))))))))))))

-- The REX prefixes that stand before the next opcode.
abbrev pub rex_count : List ℕ → ℕ
rex_count [] = 0
rex_count (b ∷ bytes) = if leb 0x40 b && leb b 0x4F then rex_count bytes + 1 else 0

skip_rex_lem :
    (bytes : List ℕ) (at rex : ℕ)
    → ((skip_rex bytes at rex).1.1 ≡ at + rex_count bytes)
      × ((skip_rex bytes at rex).1.1 + length (skip_rex bytes at rex).1.0 ≡ at + length bytes)
unfolding skip_rex
skip_rex_lem [] at rex = (omega arith, omega arith)
skip_rex_lem (b ∷ bytes) at rex = elim (Bool-cases (leb 0x40 b && leb b 0x4F)) [
  | inl e ↦
      rw e
        (omega (arith, skip_rex_lem bytes (at + 1) b), omega (arith, skip_rex_lem bytes (at + 1) b))
  | inr e ↦ rw e (omega arith, omega arith)
]

-- What the length of an item of `code` at `offset` is bounded by.
abbrev pub IsWithin : List ℕ → ℕ → Insn → Type 0
IsWithin code offset i =
    (i.offset ≡ offset)
    × (0 < i.length)
    × (offset + i.length ≤ length code)
    × (i.kind ≡ insn → i.length ≤ rex_count (drop offset code) + 11)
    × (i.kind ≡ data_item → i.length ≤ max_data_bytes)
    × (i.kind ≡ bad → i.length ≡ 1)

-- An embedded string lies in the code and has at most 256 bytes.
embedded_string_len_bounds :
    (code : List ℕ) (offset : ℕ)
    → 0 < embedded_string_len code offset
    → (offset + embedded_string_len code offset ≤ length code)
      × (embedded_string_len code offset ≤ max_data_bytes)
unfolding embedded_string_len checked_len
embedded_string_len_bounds code offset =
    let zero_length : P 0 = λ h. absurd (omega arith) in
    if_rule P (ltb offset 5) _ _ zero_length (
      if_rule P (not (get_or code (offset - 5) 0 == 0xE9)) _ _ zero_length (
        if_cases P (len == 0 || ltb max_data_bytes len) _ _ (λ _. zero_length)
          (λ small.
            if_cases P (ltb (length code) (offset + len)) _ _ (λ _. zero_length)
              (λ room. if_rule P (not (get_or code (offset + len - 1) 0 == 0)) _ _ zero_length (
                if_rule P (all_printable (len - 1) (drop offset code)) _ _
                  (λ h. (ltb→ge (length code) (offset + len) room, short len small))
                  zero_length)))))
  where
    P : ℕ → Type 0
    P n = 0 < n → (offset + n ≤ length code) × (n ≤ max_data_bytes)

    len : ℕ
    len =
        get_or code (offset - 4) 0
        + get_or code (offset - 3) 0 * 2 ^ 8
        + get_or code (offset - 2) 0 * 2 ^ 16
        + get_or code (offset - 1) 0 * 2 ^ 24

    short : (n : ℕ) → (n == 0 || ltb max_data_bytes n) ≡ false → n ≤ max_data_bytes
    short n h = ground arith

module _ (code_addr : ℕ) (code : List ℕ) (offset : ℕ) (inside : offset < length code) where
  emit_bad-IsWithin : IsWithin code offset (emit_bad code offset)
  unfolding emit_bad
  emit_bad-IsWithin = (refl, omega arith, omega arith, (λ e. cc), (λ e. cc), (λ e. refl))

  data_insn-IsWithin :
      ltb 0 (embedded_string_len code offset) ≡ true
      → IsWithin code offset (data_insn code offset (embedded_string_len code offset))
  unfolding data_insn
  data_insn-IsWithin h =
      let len : ℕ = embedded_string_len code offset in
      let some_bytes : 0 < len = ltb→lt 0 len h in
      let bounds : (offset + len ≤ length code) × (len ≤ max_data_bytes) =
        embedded_string_len_bounds code offset some_bytes in
      (refl, some_bytes, bounds.0, (λ e. cc), (λ _. bounds.1), (λ e. cc))

  finish-IsWithin :
      (c : Cursor) (d : Decoded)
      → Decodes c d
      → c.at + length c.rest ≡ length code
      → offset + 1 ≤ c.at
      → c.at ≤ offset + rex_count (drop offset code) + 1
      → IsWithin code offset (finish code_addr code offset d)
  unfolding finish
  finish-IsWithin c d reads total from to =
      if_rule (IsWithin code offset) (not d.ok || d.cursor.truncated) _ _ emit_bad-IsWithin
        (refl, omega arith, omega arith, (λ e. omega arith), (λ e. cc), (λ e. cc))

  decode_insn-IsWithin :
      (skipped : ℕ × (List ℕ × ℕ))
      → skipped.1.1 ≡ offset + rex_count (drop offset code)
      → skipped.1.1 + length skipped.1.0 ≡ length code
      → IsWithin code offset (decode_insn code_addr code offset skipped)
  unfolding decode_insn
  decode_insn-IsWithin (rex, ([], at)) h k = emit_bad-IsWithin
  decode_insn-IsWithin (rex, (op ∷ bytes, at)) h k =
      let c : Cursor = record { rest = bytes; at = at + 1; truncated = false; rip_disp = none } in
      finish-IsWithin c (decode code_addr (length code) op rex (rex / 8 % 2 == 1) c)
        (decode-Decodes code_addr (length code) op rex (rex / 8 % 2 == 1) c) (omega arith)
        (omega arith) (omega arith)

pub os_disasm_item-behind :
    (code_addr : ℕ) (code : List ℕ) (offset : ℕ)
    → length code ≤ offset
    → os_disasm_item code_addr code offset ≡ none
unfolding os_disasm_item
os_disasm_item-behind code_addr code offset h = rw (behind (length code) offset h) refl
  where
    behind : (a b : ℕ) → a ≤ b → leb a b ≡ true
    behind a b h = ground arith

-- At an offset in the code there is an item: it starts there, has at least one byte, and lies in the
-- code. An instruction has at most 11 bytes with its opcode and behind its REX prefixes, an embedded
-- string at most 256, and what cannot be decoded has one.
pub os_disasm_item-IsWithin :
    (code_addr : ℕ) (code : List ℕ) (offset : ℕ)
    → offset < length code
    → (i : Insn) × (os_disasm_item code_addr code offset ≡ some i) × IsWithin code offset i
unfolding os_disasm_item
os_disasm_item-IsWithin code_addr code offset h = rw (inside (length code) offset h) (
    if_cases (λ (o : Option Insn). (i : Insn) × (o ≡ some i) × IsWithin code offset i)
      (ltb 0 (embedded_string_len code offset)) _ _
      (λ e. (
        data_insn code offset (embedded_string_len code offset),
        refl,
        data_insn-IsWithin code_addr code offset h e,
      ))
      (λ e. (
        decode_insn code_addr code offset (skip_rex (drop offset code) offset 0),
        refl,
        decode_insn-IsWithin code_addr code offset h (skip_rex (drop offset code) offset 0)
            (skip_rex_lem (drop offset code) offset 0).0
            (omega (arith, skip_rex_lem (drop offset code) offset 0, length-drop {0} offset code)),
      )))
  where
    inside : (a b : ℕ) → b < a → leb a b ≡ false
    inside a b h = ground arith
