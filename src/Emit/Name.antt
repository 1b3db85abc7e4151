-- ===== src/Emit/Name.antt =====
-- The names that src/c/za.c embeds in the code, and what src/c/disasm.c shows for them.
use isiki.Prelude.{
  ℕ, ◌+◌, ◌-◌, ◌*◌, ◌/◌, ◌%◌, ◌^◌, ◌≤◌, ◌<◌, ◌≡◌, refl, sym, ap, ◌∙◌, inl, inr, true, false, ◌&&◌,
  ◌||◌, some, List, [], ◌∷◌, ◌++◌, arith, ltb, leb, ◌==◌, if◌then◌else◌, length, length-append,
  get_or, get_or-append, drop, drop-append, All, Bool-cases,
}
use mathlib.Core.List.{append_assoc, append-nil}
use mathlib.Core.Path.{subst}
use isiki.Prelude.Int.{sub_ℕ}
use isiki.Disasm.Text.{Sb, sb_init, sb_char}
use isiki.Disasm.Text.Room.{sb_char-text}
use isiki.Disasm.Switch.{text_size}
use isiki.Disasm.Item.{
  Insn, data_item, max_data_bytes, all_printable, checked_len, embedded_string_len, put_quoted,
  data_insn, os_disasm_item,
}
use isiki.Emit.{
  jit_code_size, bytes32, word32, Jit, jit_emit, jit_patch_rel32, jit_patch_rel32_target,
  za_emit_symbol_name,
}
use isiki.Emit.Room.{jit_emit-code}
use isiki.Emit.Jump.{
  jmp_code, set32-append, rel32_placeholder_lem, patch_rel32_target_lem, ShowsJmp, jmp_code_shows,
}

abbrev pub IsPrintable : ℕ → Type 0
IsPrintable c = (0x20 ≤ c) × (c ≤ 0x7E)

-- The name as a text in quotes shows it.
abbrev pub escaped_char : ℕ → List ℕ
escaped_char c = if c == b'"' || c == b'\\' then b'\\' ∷ c ∷ [] else c ∷ []

abbrev pub escaped : List ℕ → List ℕ
escaped [] = []
escaped (c ∷ name) = escaped_char c ++ escaped name

all_printable-name :
    (name rest : List ℕ) → All IsPrintable name → all_printable (length name) (name ++ rest) ≡ true
unfolding all_printable
all_printable-name [] rest h = refl
all_printable-name (c ∷ name) rest h = rw (shown c h.0) (all_printable-name name rest h.1)
  where
    shown : (c : ℕ) → (0x20 ≤ c) × (c ≤ 0x7E) → (leb 0x20 c && leb c 0x7E) ≡ true
    shown c h = ground arith

escaped_char_lem :
    (sb : Sb) (c : ℕ)
    → length sb.text + length (escaped_char c) < sb.size
    → sb_char (if c == b'"' || c == b'\\' then sb_char sb b'\\' else sb) c
      ≡ record sb { text = sb.text ++ escaped_char c }
escaped_char_lem sb c = elim (Bool-cases (c == b'"' || c == b'\\')) [
  | inl e ↦ rw e (λ h.
      let sb' : Sb = record sb { text = sb.text ++ b'\\' ∷ [] } in
      ap (λ (t : Sb). sb_char t c) (sb_char-text sb b'\\' (omega arith))
      ∙ sb_char-text sb' c (omega (arith, length-append {0} sb.text (b'\\' ∷ [])))
      ∙ ap (λ (t : List ℕ). record sb { text = t }) (append_assoc sb.text (b'\\' ∷ []) (c ∷ [])))
  | inr e ↦ rw e (λ h. sb_char-text sb c (omega arith))
]

put_quoted-text :
    (sb : Sb) (name rest : List ℕ)
    → length sb.text + length (escaped name) < sb.size
    → put_quoted sb (length name) (name ++ rest) ≡ record sb { text = sb.text ++ escaped name }
unfolding put_quoted
put_quoted-text sb [] rest h =
    ap (λ (t : List ℕ). record sb { text = t }) (sym (append-nil sb.text))
put_quoted-text sb (c ∷ name) rest h =
    let sb' : Sb = record sb { text = sb.text ++ escaped_char c } in
    let both : length (escaped (c ∷ name)) ≡ length (escaped_char c) + length (escaped name) =
      length-append (escaped_char c) (escaped name) in
    ap (λ (t : Sb). put_quoted t (length name) (name ++ rest)) (escaped_char_lem sb c (omega arith))
    ∙ put_quoted-text sb' name rest (omega (arith, length-append {0} sb.text (escaped_char c)))
    ∙ ap (λ (t : List ℕ). record sb { text = t })
        (append_assoc sb.text (escaped_char c) (escaped name))

checked_len-name :
    (before name rest : List ℕ)
    → length name < max_data_bytes
    → All IsPrintable name
    → checked_len (before ++ (name ++ 0 ∷ rest)) (length before) (length name + 1) ≡ length name + 1
unfolding checked_len
checked_len-name before name rest short printable =
    let n : ℕ = length name in
    let code : List ℕ = before ++ (name ++ 0 ∷ rest) in
    let size : length code ≡ length before + (n + length (0 ∷ rest)) =
      length-append before (name ++ 0 ∷ rest)
      ∙ ap (λ (k : ℕ). length before + k) (length-append name (0 ∷ rest)) in
    let nul : get_or code (length before + (n + 1) - 1) 0 ≡ 0 =
      get_or-append before (name ++ 0 ∷ rest) n (length before + (n + 1) - 1) 0 (omega arith)
      ∙ get_or-append name (0 ∷ rest) 0 n 0 (omega arith) in
    let text : all_printable (n + 1 - 1) (drop (length before) code) ≡ true =
      ap (λ (t : List ℕ). all_printable (n + 1 - 1) t) (drop-append before (name ++ 0 ∷ rest))
      ∙ ap (λ (k : ℕ). all_printable k (name ++ 0 ∷ rest)) (omega arith)
      ∙ all_printable-name name (0 ∷ rest) printable in
    rw (fits n short, inside (length code) (length before + (n + 1)) (omega arith), nul, text) refl
  where
    fits : (n : ℕ) → n < max_data_bytes → (n + 1 == 0 || ltb max_data_bytes (n + 1)) ≡ false
    fits n h = ground arith

    inside : (a b : ℕ) → b ≤ a → ltb a b ≡ false
    inside a b h = ground arith

-- A text behind a jmp of its length is seen as an embedded string.
embedded_string_len-name :
    (before name rest : List ℕ) (from : ℕ)
    → from ≡ length before + 5
    → length name < max_data_bytes
    → All IsPrintable name
    → embedded_string_len (before ++ 0xE9 ∷ (bytes32 (length name + 1) ++ (name ++ 0 ∷ rest))) from
      ≡ length name + 1
unfolding embedded_string_len
embedded_string_len-name before name rest from place short printable =
    let n : ℕ = length name + 1 in
    let head : List ℕ = 0xE9 ∷ bytes32 n in
    let tail : List ℕ = 0xE9 ∷ (bytes32 n ++ (name ++ 0 ∷ rest)) in
    let code : List ℕ = before ++ tail in
    let op : get_or code (from - 5) 0 ≡ 0xE9 =
      get_or-append before tail 0 (from - 5) 0 (omega arith) in
    let b₀ : get_or code (from - 4) 0 ≡ n % 2 ^ 8 =
      get_or-append before tail 1 (from - 4) 0 (omega arith) in
    let b₁ : get_or code (from - 3) 0 ≡ n / 2 ^ 8 % 2 ^ 8 =
      get_or-append before tail 2 (from - 3) 0 (omega arith) in
    let b₂ : get_or code (from - 2) 0 ≡ n / 2 ^ 16 % 2 ^ 8 =
      get_or-append before tail 3 (from - 2) 0 (omega arith) in
    let b₃ : get_or code (from - 1) 0 ≡ n / 2 ^ 24 % 2 ^ 8 =
      get_or-append before tail 4 (from - 1) 0 (omega arith) in
    let len : get_or code (from - 4) 0
          + get_or code (from - 3) 0 * 2 ^ 8
          + get_or code (from - 2) 0 * 2 ^ 16
          + get_or code (from - 1) 0 * 2 ^ 24
        ≡ n =
      omega arith in
    let start : from ≡ length (before ++ head) = omega (arith, length-append {0} before head) in
    rw (far from (omega arith), op)
      (ap (λ (k : ℕ). checked_len code from k) len
        ∙ ap (λ (k : ℕ). checked_len code k n) start
        ∙ ap (λ (t : List ℕ). checked_len t (length (before ++ head)) n)
            (sym (append_assoc before head (name ++ 0 ∷ rest)))
        ∙ checked_len-name (before ++ head) name rest short printable)
  where
    far : (k : ℕ) → 5 ≤ k → ltb k 5 ≡ false
    far k h = ground arith

-- The code of an embedded name, in front of more code.
abbrev name_code : List ℕ → List ℕ
name_code name = 0xE9 ∷ (bytes32 (length name + 1) ++ (name ++ 0 ∷ []))

name-code :
    (name : List ℕ) (j : Jit)
    → j.overflow ≡ false
    → length j.code + length name + 6 ≤ jit_code_size
    → za_emit_symbol_name name j ≡ (record j { code = j.code ++ name_code name }, length j.code + 5)
unfolding za_emit_symbol_name jit_patch_rel32
name-code name j no_overflow room =
    let jmp : List ℕ = 0xE9 ∷ 0 ∷ 0 ∷ 0 ∷ 0 ∷ [] in
    let j₁ : Jit = record j { code = j.code ++ jmp } in
    let at₁ : length j₁.code ≡ length j.code + 5 = length-append j.code jmp in
    let j₂ : Jit = record j { code = j₁.code ++ name } in
    let at₂ : length j₂.code ≡ length j₁.code + length name = length-append j₁.code name in
    let text : List ℕ = name ++ 0 ∷ [] in
    let j₃ : Jit = record j { code = j.code ++ (jmp ++ text) } in
    let joined : record j { code = j₂.code ++ 0 ∷ [] } ≡ j₃ =
      ap (λ (t : List ℕ). record j { code = t })
        (append_assoc j₁.code name (0 ∷ []) ∙ append_assoc j.code jmp text) in
    let at₃ : length j₃.code ≡ length j.code + 1 + 4 + (length name + 1) =
      omega (arith, length-append {0} j.code (jmp ++ text), length-append {0} name (0 ∷ [])) in
    let ends : jit_patch_rel32_target (length j.code + 1) (length j₃.code) j₃
        ≡ record j { code = j.code ++ name_code name } =
      patch_rel32_target_lem (length j.code + 1) (length j₃.code) j₃ no_overflow (omega arith)
      ∙ ap (λ (t : List ℕ). record j { code = t })
          (set32-append j.code 0xE9 0 0 0 0 text (length j.code + 1)
              (word32 (sub_ℕ (length j₃.code) (length j.code + 1 + 4))) refl
            ∙ ap (λ (v : ℕ). j.code ++ 0xE9 ∷ (bytes32 v ++ text))
                (ap (λ (k : ℕ). word32 (sub_ℕ k (length j.code + 1 + 4))) at₃
                  ∙ distance (length j.code + 1 + 4) (length name + 1) (omega arith))) in
    ap (λ (p : Jit × ℕ). (patched p.1 (jit_emit (0 ∷ []) (jit_emit name p.0)), length p.0.code))
      (rel32_placeholder_lem 0xE9 j (omega arith))
    ∙ ap (λ (t : Jit). (patched (length j.code + 1) (jit_emit (0 ∷ []) t), length j₁.code))
        (jit_emit-code name j₁ (omega arith))
    ∙ ap (λ (t : Jit). (patched (length j.code + 1) t, length j₁.code))
        (jit_emit-code (0 ∷ []) j₂ (omega arith) ∙ joined)
    ∙ ap (λ (t : Jit). (t, length j₁.code)) ends
    ∙ ap (λ (n : ℕ). (record j { code = j.code ++ name_code name }, n)) at₁
  where
    patched : ℕ → Jit → Jit
    patched n t = jit_patch_rel32_target n (length t.code) t

    distance : (from n : ℕ) → n < 2 ^ 32 → word32 (sub_ℕ (from + n) from) ≡ n
    distance from n h = ground arith

-- The item at the offset is an embedded string with this text, shown in quotes.
abbrev pub ShowsText : ℕ → List ℕ → ℕ → List ℕ → Type 0
ShowsText code_addr code offset name =
    (i : Insn) × (os_disasm_item code_addr code offset ≡ some i)
    × (i.kind ≡ data_item)
    × (i.length ≡ length name + 1)
    × (i.operands ≡ b'"' ∷ (escaped name ++ b'"' ∷ []))

quoted_lem :
    (name rest : List ℕ)
    → length (escaped name) < 94
    → (sb_char
        (put_quoted (sb_char (sb_init text_size) b'"') (length name) (name ++ rest))
        b'"').text
      ≡ b'"' ∷ (escaped name ++ b'"' ∷ [])
quoted_lem name rest short =
    let open_quote : Sb = record { size = text_size; text = b'"' ∷ [] } in
    ap (λ (t : Sb). (sb_char (put_quoted t (length name) (name ++ rest)) b'"').text)
      (sb_char-text (sb_init text_size) b'"' (omega arith))
    ∙ ap (λ (t : Sb). (sb_char t b'"').text) (put_quoted-text open_quote name rest (omega arith))
    ∙ ap (λ (t : Sb). t.text)
        (sb_char-text (record { size = text_size; text = b'"' ∷ escaped name }) b'"' (omega arith))

text_shows :
    (code_addr : ℕ) (before name rest : List ℕ)
    → length name < max_data_bytes
    → All IsPrintable name
    → length (escaped name) < 94
    → ShowsText code_addr
        (before ++ 0xE9 ∷ (bytes32 (length name + 1) ++ (name ++ 0 ∷ rest)))
        (length before + 5)
        name
unfolding os_disasm_item data_insn
text_shows code_addr before name rest short printable few =
    let head : List ℕ = 0xE9 ∷ bytes32 (length name + 1) in
    let text : List ℕ = name ++ 0 ∷ rest in
    let code : List ℕ = before ++ (head ++ text) in
    let from : ℕ = length before + 5 in
    let len : embedded_string_len code from ≡ length name + 1 =
      embedded_string_len-name before name rest from refl short printable in
    let size : length code ≡ length before + (5 + (length name + length (0 ∷ rest))) =
      omega (arith, length-append {0} before (head ++ text), length-append {0} name (0 ∷ rest)) in
    let behind : drop from code ≡ text =
      ap (λ (n : ℕ). drop n code) (omega (arith, length-append {0} before head) ∙ refl)
      ∙ ap (λ (t : List ℕ). drop (length (before ++ head)) t) (sym (append_assoc before head text))
      ∙ drop-append (before ++ head) text in
    (
      data_insn code from (length name + 1),
      rw (inside (length code) from (omega arith), len, some_bytes (length name)) refl,
      refl,
      refl,
      ap
            (λ (t : List ℕ).
              (sb_char (put_quoted (sb_char (sb_init text_size) b'"') (length name + 1 - 1) t)
                b'"').text)
            behind
          ∙ ap
              (λ (n : ℕ).
                (sb_char (put_quoted (sb_char (sb_init text_size) b'"') n text) b'"').text)
              (one_less (length name))
          ∙ quoted_lem name (0 ∷ rest) few,
    )
  where
    inside : (a b : ℕ) → b < a → leb a b ≡ false
    inside a b h = ground arith

    some_bytes : (n : ℕ) → ltb 0 (n + 1) ≡ true
    some_bytes n = ground arith

    one_less : (n : ℕ) → n + 1 - 1 ≡ n
    one_less n = omega arith

-- A name of printable characters that is embedded in a buffer with room for it and no overflow yet is
-- shown by the disassembler as a jmp to the code behind the name's NUL, and there, at the place that is
-- handed back, as a text in quotes, with a backslash before a quote and a backslash; so it is if the name
-- is shorter than 256 and its shown text has fewer than 94 characters, whatever code follows, unless the
-- bytes before the jmp look like the jmp over another embedded string.
pub za_emit_symbol_name-Shows :
    (code_addr : ℕ) (name : List ℕ) (j : Jit) (rest : List ℕ)
    → j.overflow ≡ false
    → length j.code + length name + 6 ≤ jit_code_size
    → length name < max_data_bytes
    → All IsPrintable name
    → length (escaped name) < 94
    → embedded_string_len ((za_emit_symbol_name name j).0.code ++ rest) (length j.code) ≡ 0
    → ((za_emit_symbol_name name j).1 ≡ length j.code + 5)
      × ShowsJmp code_addr
          ((za_emit_symbol_name name j).0.code ++ rest)
          (length j.code)
          (length j.code + 5 + (length name + 1))
      × ShowsText code_addr ((za_emit_symbol_name name j).0.code ++ rest) (length j.code + 5) name
za_emit_symbol_name-Shows code_addr name j rest no_overflow room short printable few apart =
    let at : ℕ = length j.code in
    let emitted : za_emit_symbol_name name j
        ≡ (record j { code = j.code ++ name_code name }, at + 5) =
      name-code name j no_overflow room in
    let text : List ℕ = name ++ 0 ∷ rest in
    let from : ℕ = at + 1 + 4 in
    let target : ℕ = at + 5 + (length name + 1) in
    let code : (za_emit_symbol_name name j).0.code ++ rest
        ≡ j.code ++ 0xE9 ∷ (bytes32 (length name + 1) ++ text) =
      ap (λ (p : Jit × ℕ). p.0.code ++ rest) emitted
      ∙ append_assoc j.code (name_code name) rest
      ∙ ap (λ (t : List ℕ). j.code ++ 0xE9 ∷ (bytes32 (length name + 1) ++ t))
          (append_assoc name (0 ∷ []) rest) in
    let jump : jmp_code target from ++ text ≡ 0xE9 ∷ (bytes32 (length name + 1) ++ text) =
      ap (λ (v : ℕ). 0xE9 ∷ (bytes32 v ++ text))
        (distance target from (length name + 1) (omega arith) (omega arith)) in
    let whole : (za_emit_symbol_name name j).0.code ++ rest
        ≡ j.code ++ (jmp_code target from ++ text) =
      code ∙ ap (λ (t : List ℕ). j.code ++ t) (sym jump) in
    let size : length (j.code ++ (jmp_code target from ++ text))
        ≡ at + (5 + (length name + length (0 ∷ rest))) =
      omega (
        arith,
        length-append {0} j.code (jmp_code target from ++ text),
        length-append {0} name (0 ∷ rest),
      ) in
    (
      ap (λ (p : Jit × ℕ). p.1) emitted,
      subst (λ (t : List ℕ). ShowsJmp code_addr t at target) (sym whole)
          (jmp_code_shows code_addr j.code text target (omega arith) (omega arith) (omega arith)
            (ap (λ (t : List ℕ). embedded_string_len t at) (sym whole) ∙ apart)),
      subst (λ (t : List ℕ). ShowsText code_addr t (at + 5) name) (sym code)
          (text_shows code_addr j.code name rest short printable few),
    )
  where
    distance : (target from n : ℕ) → target ≡ from + n → n < 2 ^ 32 → word32 (sub_ℕ target from) ≡ n
    distance target from n e h = ground arith
