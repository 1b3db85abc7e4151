-- ===== src/Disasm/Runs.antt =====
-- Runs of src/c/disasm.c on short pieces of code.
use isiki.Prelude.{ℕ, ◌≤◌, ◌≡◌, refl, inr, arith, length, Option, none, some, List, [], ◌∷◌, codes}
use isiki.Disasm.Text.{sb_str, sb_char, sb_disp, regname}
use isiki.Disasm.Operand.{decode_modrm}
use isiki.Disasm.Item.{Insn, insn, os_disasm_item}
use isiki.Disasm.Bounds.{IsWithin, os_disasm_item-IsWithin}
use isiki.Disasm.Sweep.{disasm_items, Consecutive, disasm_items-Consecutive}
use isiki.Disasm.Layout.{os_disasm_format_line-ends, os_disasm_format_line-stuck}
use isiki.Disasm.Line.{os_disasm_format_line, line_head, pad_to_comment}

abbrev text_of : Option Insn → List ℕ
text_of none = []
text_of (some i) = i.operands

abbrev load_code : List ℕ
load_code = 0x48 ∷ 0x8b ∷ 0x4c ∷ 0x24 ∷ 0x48 ∷ []

load_text : text_of (os_disasm_item 4096 load_code 0) ≡ codes "rcx, [rsp+0x48]"
unfolding os_disasm_item decode_modrm sb_str sb_char sb_disp regname
load_text = refl

abbrev line_of : Option Insn → Option (List ℕ)
line_of none = none
line_of (some i) = os_disasm_format_line 100 i 256

load_line :
    line_of (os_disasm_item 4096 load_code 0)
    ≡ some (codes "0000  48 8b 4c 24 48                   mov rcx, [rsp+0x48]")
unfolding os_disasm_item os_disasm_format_line line_head pad_to_comment decode_modrm sb_str sb_char
    sb_disp regname
load_line = refl

os_disasm_item-IsWithin_example :
    (i : Insn) × (os_disasm_item 4096 load_code 0 ≡ some i) × IsWithin load_code 0 i
os_disasm_item-IsWithin_example = os_disasm_item-IsWithin 4096 load_code 0 (omega arith)

disasm_items-Consecutive_example :
    (items : List Insn) × (disasm_items 6 4096 load_code 0 ≡ some items) × Consecutive 0 5 items
disasm_items-Consecutive_example =
    disasm_items-Consecutive 6 4096 load_code 0 (omega arith) (omega arith)

abbrev call_item : Insn
call_item = record {
  kind = insn;
  offset = 0;
  length = 5;
  bytes = 0xE8 ∷ 0 ∷ 0 ∷ 1 ∷ 0 ∷ [];
  mnemonic = codes "call";
  operands = codes ".+0x10000 ; outside";
  target = some 0x20005;
  comment = codes "<kernel>";
}

os_disasm_format_line-ends_example :
    (line : List ℕ) × (os_disasm_format_line 74 call_item 192 ≡ some line) × (length line ≤ 191)
os_disasm_format_line-ends_example =
    os_disasm_format_line-ends call_item 192 74 (inr (omega arith)) (omega arith)

os_disasm_format_line-stuck_example : os_disasm_format_line 1000 call_item 64 ≡ none
os_disasm_format_line-stuck_example =
    os_disasm_format_line-stuck call_item 64 1000 (omega arith) (omega arith)
