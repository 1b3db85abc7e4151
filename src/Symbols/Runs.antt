-- ===== src/Symbols/Runs.antt =====
-- A small symbol table, and the lookup of src/c/disasm_symtab_lookup.c in it.
use isiki.Prelude.{zero, suc, ◌+◌, ◌-◌, ◌%◌, ◌^◌, ◌≤◌, ◌<◌, ◌≡◌, refl, [], ◌∷◌, arith}
use isiki.Symbols.{SymbolTable, missing, found, lookup_kernel_symbol}
use isiki.Symbols.Search.{IsSorted, IsSymbol, lookup_kernel_symbol-IsSymbol}

-- Linked at 1000 and loaded at 5000.
abbrev three_symbols : SymbolTable
three_symbols = record {
  link_image_base = 1000;
  sym_addr = 1016 ∷ 1032 ∷ 1064 ∷ [];
  sym_name_off = 0 ∷ 5 ∷ 9 ∷ [];
}

in_second : lookup_kernel_symbol three_symbols 5000 5040 ≡ found 5 8
unfolding lookup_kernel_symbol
in_second = refl

behind_last : lookup_kernel_symbol three_symbols 5000 5065 ≡ missing
unfolding lookup_kernel_symbol
behind_last = refl

three-IsSorted : IsSorted three_symbols.sym_addr
three-IsSorted zero zero p q = omega arith
three-IsSorted zero (suc zero) p q = omega arith
three-IsSorted zero (suc (suc zero)) p q = omega arith
three-IsSorted (suc zero) zero p q = absurd (omega arith)
three-IsSorted (suc zero) (suc zero) p q = omega arith
three-IsSorted (suc zero) (suc (suc zero)) p q = omega arith
three-IsSorted (suc (suc zero)) zero p q = absurd (omega arith)
three-IsSorted (suc (suc zero)) (suc zero) p q = absurd (omega arith)
three-IsSorted (suc (suc zero)) (suc (suc zero)) p q = omega arith
three-IsSorted (suc (suc (suc i))) j p q = absurd (omega arith)
three-IsSorted i (suc (suc (suc j))) p q = absurd (omega arith)

lookup_kernel_symbol-IsSymbol_example :
    (5000 ≤ 5040
      → IsSymbol three_symbols
          ((1000 + (5040 - 5000)) % 2 ^ 64)
          (lookup_kernel_symbol three_symbols 5000 5040))
    × (5040 < 5000 → lookup_kernel_symbol three_symbols 5000 5040 ≡ missing)
lookup_kernel_symbol-IsSymbol_example =
    lookup_kernel_symbol-IsSymbol three_symbols 5000 5040 three-IsSorted
