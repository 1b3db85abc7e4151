-- ===== src/Symbols.antt =====
-- src/c/disasm_symtab_lookup.c: the symbol of an address, by a binary search of the table that the
-- build generates.
pub mod Search
mod Runs
use isiki.Prelude.{
  ℕ, zero, suc, ◌+◌, ◌-◌, ◌/◌, ◌%◌, ◌^◌, Bool, true, false, not, Option, none, some, List, [], ◌∷◌,
  ltb, leb, ◌==◌, if◌then◌else◌, length, get_or,
}

-- g_disasm_link_image_base, g_disasm_sym_addr and g_disasm_sym_name_off; g_disasm_sym_count is the
-- length of both lists.
pub record SymbolTable : Type 0 where
  pub link_image_base : ℕ
  pub sym_addr : List ℕ
  pub sym_name_off : List ℕ

-- No symbol; the name's place and the offset from the symbol; or, in the model only, out of fuel.
pub data Lookup : Type 0 where
  missing : Lookup
  found : ℕ → ℕ → Lookup
  out_of_fuel : Lookup

-- The loop, on fuel.
unfoldable pub search : ℕ → List ℕ → ℕ → ℕ → ℕ → Option ℕ
search zero addr link_addr lo hi = none
search (suc fuel) addr link_addr lo hi =
    let mid = lo + (hi - lo + 1) / 2 in
    let below = leb (get_or addr mid 0) link_addr in
    let rest =
      search fuel addr link_addr (if below then mid else lo) (if below then hi else mid - 1) in
    if ltb lo hi then rest else some lo

-- The tests behind the search, at the symbol that it found.
unfoldable pub accept : SymbolTable → ℕ → ℕ → Lookup
accept table link_addr lo =
    let addr = table.sym_addr in
    let hit = found (get_or table.sym_name_off lo 0) (link_addr - get_or addr lo 0) in
    if ltb (lo + 1) (length addr)
    then (if leb (get_or addr (lo + 1) 0) link_addr then missing else hit)
    else if link_addr == get_or addr lo 0
    then hit
    else missing

-- The range shrinks in every round, so the number of symbols bounds the rounds.
unfoldable pub lookup_link : SymbolTable → ℕ → Lookup
unfolding search accept
lookup_link table link_addr =
    let addr = table.sym_addr in
    if ltb link_addr (get_or addr 0 0)
    then missing
    else (elim (search (length addr) addr link_addr 0 (length addr - 1)) [
      | some lo ↦ accept table link_addr lo
      | none ↦ out_of_fuel
    ])

-- `rt_base` is the address that the image is loaded at.
unfoldable pub lookup_kernel_symbol : SymbolTable → ℕ → ℕ → Lookup
unfolding lookup_link
lookup_kernel_symbol table rt_base runtime_addr =
    if length table.sym_addr == 0
    then missing
    else if ltb runtime_addr rt_base
    then missing
    else lookup_link table ((table.link_image_base + (runtime_addr - rt_base)) % 2 ^ 64)
