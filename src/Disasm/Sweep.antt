-- ===== src/Disasm/Sweep.antt =====
-- The walk over whole code in src/lisp/disassemble.lisp, by os_disasm_item of src/c/disasm.c.
use isiki.Prelude.{
  ℕ, zero, suc, ◌+◌, ◌≤◌, ◌<◌, ◌≡◌, refl, ap, inl, inr, Option, none, some, List, [], ◌∷◌, arith,
  ltb, ltb→lt, ltb→ge, if◌then◌else◌, length, Bool-cases,
}
use isiki.Disasm.Item.{Insn, os_disasm_item}
use isiki.Disasm.Bounds.{IsWithin, os_disasm_item-IsWithin}

abbrev add_item : Insn → Option (List Insn) → Option (List Insn)
add_item i none = none
add_item i (some items) = some (i ∷ items)

abbrev after_item : Option Insn → (Insn → Option (List Insn)) → Option (List Insn)
after_item none go_on = some []
after_item (some i) go_on = add_item i (go_on i)

-- The loop of disasm-items, on fuel; none is that the fuel runs out.
unfoldable pub disasm_items : ℕ → ℕ → List ℕ → ℕ → Option (List Insn)
disasm_items zero code_addr code offset = none
disasm_items (suc fuel) code_addr code offset =
    let rest =
      after_item (os_disasm_item code_addr code offset)
        (λ i. disasm_items fuel code_addr code (offset + i.length)) in
    if ltb offset (length code) then rest else some []

-- Each item starts where the last one ends, and they end at `last`.
abbrev pub Consecutive : ℕ → ℕ → List Insn → Type 0
Consecutive offset last [] = offset ≡ last
Consecutive offset last (i ∷ items) =
    (i.offset ≡ offset) × (0 < i.length) × Consecutive (offset + i.length) last items

-- With as much fuel as there are bytes left and one more, disasm-items over the code ends, and its items
-- follow one another from its start to the end of the code.
pub disasm_items-Consecutive :
    (fuel code_addr : ℕ) (code : List ℕ) (offset : ℕ)
    → offset ≤ length code
    → length code < offset + fuel
    → (items : List Insn) × (disasm_items fuel code_addr code offset ≡ some items)
      × Consecutive offset (length code) items
unfolding disasm_items
disasm_items-Consecutive zero code_addr code offset h k = absurd (omega arith)
disasm_items-Consecutive (suc fuel) code_addr code offset h k =
    elim (Bool-cases (ltb offset (length code))) [
      | inl e ↦ rw e (
          extend (os_disasm_item-IsWithin code_addr code offset (ltb→lt offset (length code) e))
            (disasm_items-Consecutive fuel code_addr code))
      | inr e ↦ rw e ([], refl, omega (arith, ltb→ge offset (length code) e))
    ]
  where
    extend :
        ((i : Insn) × (os_disasm_item code_addr code offset ≡ some i) × IsWithin code offset i)
        → ((next : ℕ)
            → next ≤ length code
            → length code < next + fuel
            → (items : List Insn) × (disasm_items fuel code_addr code next ≡ some items)
              × Consecutive next (length code) items)
        → (items : List Insn) × (after_item
              (os_disasm_item code_addr code offset)
              (λ i. disasm_items fuel code_addr code (offset + i.length))
            ≡ some items)
          × Consecutive offset (length code) items
    extend (i, found, within) ih =
        let (items, walked, rest) = ih (offset + i.length) (omega arith) (omega arith) in
        (i ∷ items, rw found (ap (add_item i) walked), (within.0, within.1, rest))
