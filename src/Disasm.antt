-- ===== src/Disasm.antt =====
-- src/c/disasm.c: the decoder of machine code and the layout of its lines.
pub mod Text
pub mod Operand
pub mod Switch
pub mod Item
pub mod Bounds
pub mod Sweep
pub mod Layout
pub mod Line
mod Runs
