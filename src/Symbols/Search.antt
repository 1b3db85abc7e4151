-- ===== src/Symbols/Search.antt =====
-- The binary search of src/c/disasm_symtab_lookup.c finds the symbol that covers an address.
use isiki.Prelude.{
  ℕ, zero, suc, ◌+◌, ◌-◌, ◌/◌, ◌%◌, ◌^◌, ◌≤◌, ◌<◌, ◌≡◌, ◌≢◌, refl, sym, ap, ◌∙◌, inl, inr, true,
  false, some, List, arith, ltb, leb, ◌==◌, ltb→lt, ltb→ge, leb→le, ==→eq, ==→ne, length, get_or,
  Bool-cases,
}
use mathlib.Core.Path.{subst}
use isiki.Symbols.{
  SymbolTable, Lookup, missing, found, out_of_fuel, search, accept, lookup_link,
  lookup_kernel_symbol,
}

abbrev pub IsSorted : List ℕ → Type 0
IsSorted addr = (i j : ℕ) → i ≤ j → j < length addr → get_or addr i 0 ≤ get_or addr j 0

-- The symbol i covers the address: it lies between that symbol and the next, and at the last symbol only
-- its own address is covered.
abbrev pub Covers : List ℕ → ℕ → ℕ → Type 0
Covers addr link_addr i =
    (i < length addr)
    × (get_or addr i 0 ≤ link_addr)
    × (i + 1 < length addr → link_addr < get_or addr (i + 1) 0)
    × (i + 1 ≡ length addr → link_addr ≡ get_or addr i 0)

-- What a lookup answers for an address.
abbrev pub IsSymbol : SymbolTable → ℕ → Lookup → Type 0
IsSymbol table link_addr missing = (i : ℕ) → ¬ Covers table.sym_addr link_addr i
IsSymbol table link_addr (found name offset) =
    (i : ℕ) × Covers table.sym_addr link_addr i
    × (name ≡ get_or table.sym_name_off i 0)
    × (link_addr ≡ get_or table.sym_addr i 0 + offset)
IsSymbol table link_addr out_of_fuel = ⊥

-- The symbol that the search ends at.
abbrev Ends : List ℕ → ℕ → ℕ → Type 0
Ends addr link_addr i =
    (i < length addr)
    × (get_or addr i 0 ≤ link_addr)
    × (i + 1 < length addr → link_addr < get_or addr (i + 1) 0)

search-Ends :
    (fuel : ℕ) (addr : List ℕ) (link_addr lo hi : ℕ)
    → lo ≤ hi
    → hi < length addr
    → hi - lo < fuel
    → get_or addr lo 0 ≤ link_addr
    → (hi + 1 < length addr → link_addr < get_or addr (hi + 1) 0)
    → (i : ℕ) × (search fuel addr link_addr lo hi ≡ some i) × Ends addr link_addr i
unfolding search
search-Ends zero addr link_addr lo hi p q f low high = absurd (omega arith)
search-Ends (suc fuel) addr link_addr lo hi p q f low high =
    let mid : ℕ = lo + (hi - lo + 1) / 2 in
    elim (Bool-cases (ltb lo hi)) [
      | inl e ↦
          let apart : lo < hi = ltb→lt lo hi e in
          elim (Bool-cases (leb (get_or addr mid 0) link_addr)) [
            | inl up ↦
                rw (e, up)
                  (search-Ends fuel addr link_addr mid hi (omega arith) q (omega arith)
                    (leb→le _ _ up) high)
            | inr down ↦
                let above : link_addr < get_or addr mid 0 =
                  leb→gt (get_or addr mid 0) link_addr down in
                rw (e, down)
                  (search-Ends fuel addr link_addr lo (mid - 1) (omega arith) (omega arith)
                    (omega arith) low
                    (λ _.
                      subst (λ (k : ℕ). link_addr < get_or addr k 0) (before lo hi apart) above))
          ]
      | inr e ↦
          let same : lo ≡ hi = omega (arith, ltb→ge lo hi e) in
          rw (e) (
            lo,
            refl,
            (
              omega arith,
              low,
              λ more.
                  subst (λ (k : ℕ). link_addr < get_or addr (k + 1) 0) (sym same)
                    (high (omega arith)),
            ),
          )
    ]
  where
    leb→gt : (a b : ℕ) → leb a b ≡ false → b < a
    leb→gt a b e = ground arith

    before : (lo hi : ℕ) → lo < hi → lo + (hi - lo + 1) / 2 ≡ lo + (hi - lo + 1) / 2 - 1 + 1
    before lo hi h = omega arith

accept-IsSymbol :
    (table : SymbolTable) (link_addr lo : ℕ)
    → IsSorted table.sym_addr
    → Ends table.sym_addr link_addr lo
    → IsSymbol table link_addr (accept table link_addr lo)
unfolding accept
accept-IsSymbol table link_addr lo sorted (here, low, high) =
    let addr : List ℕ = table.sym_addr in
    elim (Bool-cases (ltb (lo + 1) (length addr))) [
      | inl e ↦
          let more : lo + 1 < length addr = ltb→lt _ _ e in
          rw (e, below_next (get_or addr (lo + 1) 0) link_addr (high more))
            (lo, (here, low, high, λ last. absurd (omega arith)), refl, omega arith)
      | inr e ↦
          let last : lo + 1 ≡ length addr = omega (arith, ltb→ge _ _ e) in
          elim (Bool-cases (link_addr == get_or addr lo 0)) [
            | inl hit ↦ rw (e, hit) (lo, (here, low, high, λ _. ==→eq _ _ hit), refl, omega arith)
            | inr miss ↦ rw (e, miss) (λ i c. uncovered i c last (==→ne _ _ miss))
          ]
    ]
  where
    below_next : (a b : ℕ) → b < a → leb a b ≡ false
    below_next a b h = ground arith

    uncovered :
        (i : ℕ)
        → Covers table.sym_addr link_addr i
        → lo + 1 ≡ length table.sym_addr
        → link_addr ≢ get_or table.sym_addr lo 0
        → ⊥
    uncovered i (in_table, under, next, at_last) last miss = elim (Bool-cases (ltb i lo)) [
      | inl e ↦
          let earlier : i < lo = ltb→lt i lo e in
          absurd (omega (arith, next (omega arith), sorted (i + 1) lo (omega arith) here))
      | inr e ↦
          let same : i ≡ lo = omega (arith, ltb→ge i lo e) in
          miss (at_last (omega arith) ∙ ap (λ (k : ℕ). get_or table.sym_addr k 0) same)
    ]

before_all :
    (table : SymbolTable) (link_addr : ℕ)
    → IsSorted table.sym_addr
    → link_addr < get_or table.sym_addr 0 0
    → (i : ℕ) → ¬ Covers table.sym_addr link_addr i
before_all table link_addr sorted h i c = omega (arith, sorted 0 i (omega arith) c.0, c.1)

lookup_link-IsSymbol :
    (table : SymbolTable) (link_addr : ℕ)
    → IsSorted table.sym_addr
    → 0 < length table.sym_addr
    → IsSymbol table link_addr (lookup_link table link_addr)
unfolding lookup_link
lookup_link-IsSymbol table link_addr sorted p =
    let addr : List ℕ = table.sym_addr in
    elim (Bool-cases (ltb link_addr (get_or addr 0 0))) [
      | inl e ↦ rw (e) (before_all table link_addr sorted (ltb→lt _ _ e))
      | inr e ↦
          let (i, ended, at) =
            search-Ends (length addr) addr link_addr 0 (length addr - 1) (omega arith) (omega arith)
              (omega arith) (ltb→ge _ _ e) (λ more. absurd (omega arith)) in
          rw (e, ended) (accept-IsSymbol table link_addr i sorted at)
    ]

-- In a table sorted by address, the lookup of an address in the loaded image, moved to the address that
-- it was linked at, ends: with the name of the symbol that covers it and the offset from that symbol, or
-- with no symbol where none covers it. An address before the image has no symbol.
pub lookup_kernel_symbol-IsSymbol :
    (table : SymbolTable) (rt_base runtime_addr : ℕ)
    → IsSorted table.sym_addr
    → (rt_base ≤ runtime_addr
        → IsSymbol table
            ((table.link_image_base + (runtime_addr - rt_base)) % 2 ^ 64)
            (lookup_kernel_symbol table rt_base runtime_addr))
      × (runtime_addr < rt_base → lookup_kernel_symbol table rt_base runtime_addr ≡ missing)
unfolding lookup_kernel_symbol
lookup_kernel_symbol-IsSymbol table rt_base runtime_addr sorted =
    elim (Bool-cases (length table.sym_addr == 0)) [
      | inl e ↦ rw (e) ((λ _ i c. omega (arith, ==→eq _ _ e, c.0)), λ _. refl)
      | inr e ↦ rw (e) (
        (λ h. rw (not_before runtime_addr rt_base h) (
            lookup_link-IsSymbol table ((table.link_image_base + (runtime_addr - rt_base)) % 2 ^ 64)
              sorted (omega (arith, ==→ne _ _ e)))),
        (λ h. rw (is_before runtime_addr rt_base h) refl),
      )
    ]
  where
    not_before : (a b : ℕ) → b ≤ a → ltb a b ≡ false
    not_before a b h = ground arith

    is_before : (a b : ℕ) → a < b → ltb a b ≡ true
    is_before a b h = ground arith
