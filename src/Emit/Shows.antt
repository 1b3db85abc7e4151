-- ===== src/Emit/Shows.antt =====
-- What src/c/disasm.c shows for the instructions that src/c/za.c emits.
use isiki.Prelude.{
  ℕ, zero, suc, ◌+◌, ◌-◌, ◌*◌, ◌/◌, ◌%◌, ◌^◌, ◌≤◌, ◌<◌, ◌≡◌, refl, ap, ◌∙◌, Bool, true, false, ◌&&◌,
  Option, none, some, List, [], ◌∷◌, ◌++◌, arith, leb, ◌==◌, length, length-append, All,
  drop-append, get_or, codes,
}
use isiki.Disasm.Text.{Sb, sb_str, sb_init, regname, reg64, reg32, copied}
use isiki.Disasm.Text.Room.{sb_str-text, copied_lem}
use isiki.Disasm.Operand.{Cursor, rm_size, decode_modrm, read_u8, read_u32}
use isiki.Disasm.Switch.{text_size, mnemonic_size, pair_ops, decode}
use isiki.Disasm.Item.{
  Insn, insn, embedded_string_len, skip_rex, decode_insn, finish, os_disasm_item,
}
use isiki.Emit.{bytes32}

-- The item of the code at the offset is the instruction with these texts and this target.
abbrev pub Shows : ℕ → List ℕ → ℕ → ℕ → List ℕ → List ℕ → Option ℕ → Type 0
Shows code_addr code offset len mnemonic operands target =
    (i : Insn) × (os_disasm_item code_addr code offset ≡ some i)
    × (i.kind ≡ insn)
    × (i.length ≡ len)
    × (i.mnemonic ≡ mnemonic)
    × (i.operands ≡ operands)
    × (i.target ≡ target)

-- Where no embedded string is seen, the bytes at the offset are decoded.
pub item_at :
    (code_addr : ℕ) (before bytes : List ℕ)
    → 0 < length bytes
    → embedded_string_len (before ++ bytes) (length before) ≡ 0
    → os_disasm_item code_addr (before ++ bytes) (length before)
      ≡ some (
          decode_insn code_addr
            (before ++ bytes)
            (length before)
            (skip_rex bytes (length before) 0))
unfolding os_disasm_item
item_at code_addr before bytes h e =
    rw
      (
        inside (length (before ++ bytes)) (length before)
            (omega (arith, length-append {0} before bytes)),
        e,
        drop-append before bytes,
      )
      refl
  where
    inside : (a b : ℕ) → b < a → leb a b ≡ false
    inside a b h = ground arith

length-get_or :
    (n : ℕ) (texts : List (List ℕ)) (i : ℕ)
    → All (λ t. length t ≤ n) texts
    → length (get_or texts i []) ≤ n
length-get_or n [] i h = omega arith
length-get_or n (t ∷ texts) zero h = h.0
length-get_or n (t ∷ texts) (suc i) h = length-get_or n texts i h.1

pub length-regname : (reg : ℕ) (wide : Bool) → length (regname reg wide) ≤ 4
unfolding regname
length-regname reg true = length-get_or 4 reg64 (reg % 16) (omega arith)
length-regname reg false = length-get_or 4 reg32 (reg % 16) (omega arith)

-- Short texts are whole.
pub pair_ops-text :
    (a b : List ℕ)
    → length a + length b < 90
    → pair_ops a b ≡ record { size = text_size; text = (a ++ codes ", ") ++ b }
pair_ops-text a b h =
    ap (λ (t : Sb). sb_str (sb_str t (codes ", ")) b)
      (sb_str-text (sb_init text_size) a (omega arith))
    ∙ ap (λ (t : Sb). sb_str t b)
        (sb_str-text (record { size = text_size; text = a }) (codes ", ") (omega arith))
    ∙ sb_str-text (record { size = text_size; text = a ++ codes ", " }) b
        (omega (arith, length-append {0} a (codes ", ")))

-- A ModRM byte with mode 3 names a register.
pub decode_modrm-register :
    (modrm rex : ℕ) (wide : Bool) (rest : List ℕ) (at : ℕ)
    → modrm / 64 ≡ 3
    → decode_modrm rex wide
        (record { rest = modrm ∷ rest; at = at; truncated = false; rip_disp = none })
      ≡ record {
        rm_text = regname (modrm % 8 + rex % 2 * 8) wide;
        reg = modrm / 8 % 8 + rex / 4 % 2 * 8;
        cursor = record { rest = rest; at = at + 1; truncated = false; rip_disp = none };
      }
unfolding decode_modrm
decode_modrm-register modrm rex wide rest at e =
    let name : List ℕ = regname (modrm % 8 + rex % 2 * 8) wide in
    rw e (
      ap
        (λ (t : Sb). record {
          rm_text = t.text;
          reg = modrm / 8 % 8 + rex / 4 % 2 * 8;
          cursor = record { rest = rest; at = at + 1; truncated = false; rip_disp = none };
        })
        (sb_str-text (sb_init rm_size) name
          (omega (arith, length-regname (modrm % 8 + rex % 2 * 8) wide))))

pub skip_rex-one :
    (rex op : ℕ) (rest : List ℕ) (at : ℕ)
    → (leb 0x40 rex && leb rex 0x4F) ≡ true
    → (leb 0x40 op && leb op 0x4F) ≡ false
    → skip_rex (rex ∷ op ∷ rest) at 0 ≡ (rex, (op ∷ rest, at + 1))
unfolding skip_rex
skip_rex-one rex op rest at is_rex is_op = rw (is_rex, is_op) refl

abbrev pub cursor_at : List ℕ → ℕ → Cursor
cursor_at rest at = record { rest = rest; at = at; truncated = false; rip_disp = none }

pub skip_rex-none :
    (op : ℕ) (rest : List ℕ) (at : ℕ)
    → (leb 0x40 op && leb op 0x4F) ≡ false
    → skip_rex (op ∷ rest) at 0 ≡ (0, (op ∷ rest, at))
unfolding skip_rex
skip_rex-none op rest at is_op = rw is_op refl

pub decode_insn-wide :
    (code_addr : ℕ) (code : List ℕ) (offset rex op : ℕ) (rest : List ℕ) (at : ℕ) (wide : Bool)
    → (rex / 8 % 2 == 1) ≡ wide
    → decode_insn code_addr code offset (rex, (op ∷ rest, at))
      ≡ finish code_addr code offset
          (decode code_addr (length code) op rex wide (cursor_at rest (at + 1)))
unfolding decode_insn
decode_insn-wide code_addr code offset rex op rest at wide e =
    ap
      (λ (w : Bool).
        finish code_addr code offset
          (decode code_addr (length code) op rex w (cursor_at rest (at + 1))))
      e

-- What a REX prefix with its W bit, an opcode and more bytes are decoded to.
pub rex_item :
    (code_addr : ℕ) (before : List ℕ) (rex op : ℕ) (rest : List ℕ)
    → (leb 0x40 rex && leb rex 0x4F) ≡ true
    → (leb 0x40 op && leb op 0x4F) ≡ false
    → rex / 8 % 2 ≡ 1
    → embedded_string_len (before ++ rex ∷ op ∷ rest) (length before) ≡ 0
    → os_disasm_item code_addr (before ++ rex ∷ op ∷ rest) (length before)
      ≡ some (
          finish code_addr (before ++ rex ∷ op ∷ rest) (length before) (
            decode code_addr (length (before ++ rex ∷ op ∷ rest)) op rex true (record {
              rest = rest;
              at = length before + 1 + 1;
              truncated = false;
              rip_disp = none;
            })))
rex_item code_addr before rex op rest is_rex is_op wide apart =
    let code : List ℕ = before ++ rex ∷ op ∷ rest in
    item_at code_addr before (rex ∷ op ∷ rest) (omega arith) apart
    ∙ ap (λ (s : ℕ × (List ℕ × ℕ)). some (decode_insn code_addr code (length before) s))
        (skip_rex-one rex op rest (length before) is_rex is_op)
    ∙ ap (λ (i : Insn). some i)
        (decode_insn-wide code_addr code (length before) rex op rest (length before + 1) true
          (is_one (rex / 8 % 2) wide))
  where
    is_one : (n : ℕ) → n ≡ 1 → (n == 1) ≡ true
    is_one n h = ground arith

-- A finished instruction has the texts and the target that the switch left, where they are short.
finish_shown :
    (code_addr : ℕ) (code : List ℕ) (offset : ℕ) (name : List ℕ) (ops : Sb) (target : Option ℕ)
    (rest : List ℕ) (at : ℕ)
    → length name < 16
    → length ops.text < 96
    → (i : Insn) × (finish code_addr code offset (record {
      mnemonic = copied mnemonic_size name;
      ops = ops;
      target = target;
      ok = true;
      cursor = record { rest = rest; at = at; truncated = false; rip_disp = none };
    })
        ≡ i)
      × (i.kind ≡ insn)
      × (i.length ≡ at - offset)
      × (i.mnemonic ≡ name)
      × (i.operands ≡ ops.text)
      × (i.target ≡ target)
unfolding finish
finish_shown code_addr code offset name ops none rest at h k = (
  _,
  refl,
  refl,
  refl,
  copied_lem 16 (copied 16 name) (rw (copied_lem 16 name h) h) ∙ copied_lem 16 name h,
  copied_lem 96 ops.text k,
  refl,
)
finish_shown code_addr code offset name ops (some t) rest at h k = (
  _,
  refl,
  refl,
  refl,
  copied_lem 16 (copied 16 name) (rw (copied_lem 16 name h) h) ∙ copied_lem 16 name h,
  copied_lem 96 ops.text k,
  refl,
)

-- What the disassembler shows, put together from the equations of its steps.
pub shows :
    (code_addr : ℕ) (code : List ℕ) (offset len : ℕ) (name : List ℕ) (ops : Sb) (operands : List ℕ)
    (target : Option ℕ) (rest : List ℕ) (at : ℕ)
    → length name < 16
    → ops ≡ record { size = text_size; text = operands }
    → length operands < 96
    → at ≡ offset + len
    → os_disasm_item code_addr code offset
      ≡ some (
          finish code_addr code offset (record {
            mnemonic = copied mnemonic_size name;
            ops = ops;
            target = target;
            ok = true;
            cursor = record { rest = rest; at = at; truncated = false; rip_disp = none };
          }))
    → Shows code_addr code offset len name operands target
shows code_addr code offset len name ops operands target rest at h e k l found =
    let text : ops.text ≡ operands = ap (λ (t : Sb). t.text) e in
    let (i, finished, kind, long, named, shown, aimed) =
      finish_shown code_addr code offset name ops target rest at h (rw text k) in
    (
      i,
      found ∙ ap (λ (t : Insn). some t) finished,
      kind,
      long ∙ omega arith,
      named,
      shown ∙ text,
      aimed,
    )

-- A 32-bit value is read back from its bytes.
pub read_u32-bytes32 :
    (v : ℕ) (rest : List ℕ) (at : ℕ)
    → v < 2 ^ 32
    → read_u32 (cursor_at (bytes32 v ++ rest) at) ≡ (v, cursor_at rest (at + 1 + 1 + 1 + 1))
unfolding read_u32 read_u8
read_u32-bytes32 v rest at h = ap (λ (n : ℕ). (n, cursor_at rest (at + 1 + 1 + 1 + 1))) (whole v h)
  where
    whole :
        (v : ℕ)
        → v < 2 ^ 32
        → v % 2 ^ 8
            + v / 2 ^ 8 % 2 ^ 8 * 2 ^ 8
            + v / 2 ^ 16 % 2 ^ 8 * 2 ^ 16
            + v / 2 ^ 24 % 2 ^ 8 * 2 ^ 24
          ≡ v
    whole v h = omega arith
