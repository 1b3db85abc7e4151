-- ===== src/Lib.antt =====
-- isiki, a LISP operating system for x86-64: the parts of its C kernel (src/c/) that carry the data
-- and the arithmetic of the Lisp and its files, as functions on plain data, with proofs.
--
-- The program. The kernel boots into a Lisp whose values are tagged 64-bit words. src/c/runtime.c holds
-- the values, the collector and the primitives; src/c/reader.c, src/c/eval.c and src/c/print.c read,
-- evaluate and print them; src/c/za.c compiles them. Files come from the host over 9P: src/c/p9.c writes
-- and reads the messages, src/c/virtio9p.c is the client, which talks to a transport
-- (src/c/transport_virtio9p.c, over the virtio queues of src/c/drivers/). src/c/stream.c lays character
-- streams over the client, over FAT files that the Lisp itself implements, over strings, the screen and
-- the keyboard. The numbers of the Lisp are fixnums and bignums, both in src/c/runtime.c.
--
-- The files, each with its children in the folder of its name:
--   Prelude    tests, lists, bits and integers over the native numbers, shared by all
--   Mag        src/c/runtime.c, mag_len to mag_divmod_small: arrays of 32-bit limbs. An array with its
--              count is a list of that length; Mag/Divide has the long division
--   Fixnum     src/c/runtime.c and src/c/runtime.h: the tagged words of small integers and their
--              arithmetic, on 64-bit words
--   Integer    src/c/runtime.c: decompose, os_make_integer, bignum_equal, floor_divmod, mag_gcd and
--              mag_isqrt, on values that are fixnums or bignums. Mag and Fixnum are its parts
--   Decimal    src/c/print.c, print_fixnum and print_bignum, and the integers of read_atom of
--              src/c/reader.c, on texts as lists of characters; print_integer is the part of print_value
--              on integers
--   P9         src/c/p9.c: the builders and parsers of messages, on lists of bytes. `build_tread` is
--              os_p9_build_tread, `get_u16` is p9_get_u16, and so on
--   Virtio9p   src/c/virtio9p.c: the client. Its static variables are the record Client; `open_file` is
--              os_virtio9p_open, the other calls keep their names. Virtio9p/Interface is the transport of
--              src/c/p9_transport.h, an argument of the section that all calls stand in
--   Stream     src/c/stream.c: os_stream_t as a record, with one function per operation. Stream/Device is
--              what the streams call: the client, the screen, the keyboard and the Lisp functions
--              READ-INTO! and WRITE-FROM! of a FAT file, also an argument of the section
--   Mount      src/c/mount.c, with os_string_to_cstr: os_mount_resolve over *MOUNTS*; Mount/Driver is the record of the Lisp
--              functions of the FAT drivers, an argument of Mount/Files, which has the os_mount_fat_
--              calls; Mount/Fat16 is READ-FILE-INTO-VECTOR-NATIVE, with the block device an argument
--   Disasm     src/c/disasm.c and src/c/disasm.h: the decoder that shows machine code. Insn is
--              os_disasm_insn_t, Sb is d_sb_t; os_disasm_item is split into one function per case;
--              disasm_items is the loop of src/lisp/disassemble.lisp over it
--   Emit       src/c/za.c: the encoders jit_* and what they write. Jit is the code buffer with its
--              overflow flag and the tables of places, those of the frame's size included, and with a
--              flag of the model's own for a store behind the array; the functions that differ in an opcode or a digit
--              only are one function of that opcode (jit_reg_reg, jit_group1_imm8, jit_mov_mem_disp8,
--              jit_emit_rel32_placeholder). Emit/RegReg, Immediate, Jump and Name decode by Disasm what
--              Emit writes
--   Symbols    src/c/disasm_symtab_lookup.c: os_disasm_lookup_kernel_symbol, by which the disassembler
--              names the addresses of the kernel. The table is generated by the build, and the place
--              where the image is loaded comes from the linker: both are arguments
-- In each, a file named for what it proves holds the theorems, and Runs holds runs on concrete values.
--
-- How the code is read. A pointer that a function writes through is a part of its result; a failed call
-- is `none`, `false` or an error constructor. Machine words are native numbers with their wrap-around
-- written out (`% 2 ^ 64`), and the differences that the C code lets wrap add 2 ^ 64 first. Reads behind
-- the end of a list give 0. A bignum's sign is true for a negative number. In the client a call ends with
-- a result, with the text of an error, or with the write through a null pointer that a null err_msg leads
-- to in p9_rpc; its requests are byte lists, and its receive buffer is what the transport hands back.
--
-- Fuel. The loop of mag_gcd has the value of the second magnitude plus one, since the remainders fall;
-- the loop of mag_isqrt has the value of the number plus one, since the guesses fall; the loop of
-- os_virtio9p_load_file has the capacity of the buffer plus one, since each round but the last stores a
-- byte; the binary search in Symbols has the number of symbols, since its range shrinks; disasm_items has
-- the bytes left plus one, since every item has a byte; the padding of a line has more rounds than its 73
-- columns, which is enough if the buffer is longer; the loop over a FAT16 chain has the code's own limit;
-- a number has at most 16 hexadecimal digits; the loops of print_fixnum and print_bignum have the digits
-- of their buffers, 20 and ten for each limb. The theorems on these loops state that they end with a
-- result. mag_mul_small_add_small appends its last carry in two
-- rounds, enough for 64 bits. The long division and all else is structural.
--
-- Not modelled. The collector, and with it the protection of values and the moving of streams, does not
-- change a result that is stated here. Environments, the primitives' argument lists, floats, symbols and
-- strings of src/c/runtime.c, the evaluator and processes are left out; so are the reader and the printer
-- but for decimal integers, and the compiler above its encoders; its build options ISIKIOS_PINNED_NIL and
-- ISIKIOS_JIT_DUMP are off. The drivers, which talk to devices by port and by memory, are left out, and the
-- Lisp sources but for disasm-items. The scratch buffers of the integer operations are not in the model. The
-- servers behind the transport, the screen and the Lisp functions are parameters; where a theorem needs them
-- to behave, a named record or data type states how (FileServer, File, Served, ReadsWithin, LogsCalls,
-- Stores, Holds).
pub mod Decimal
pub mod Disasm
pub mod Emit
pub mod Fixnum
pub mod Integer
pub mod Mag
pub mod Mount
pub mod P9
pub mod Prelude
pub mod Stream
pub mod Symbols
pub mod Virtio9p
