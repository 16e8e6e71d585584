-- ===== src/Lib.antt =====
-- A verification development for Nibble, a compiler for a C-like language that generates x64 machine
-- code. It models the lexer and the register allocator, with what of the shared code these use, the
-- hash table, the interning of strings, the layout of structs and unions, the types of integer
-- literals and of arithmetic operands, the cases of switch statements, the intervals in which
-- registers are live, how the common integer instructions are written as bytes, and how the lengths
-- of jumps are found.
--
-- The program. The driver (src/main.c, src/compiler.c) reads source files and calls the lexer
-- (src/lexer/module.c) through the parser (src/parser), which builds the syntax tree (src/ast). The
-- resolver (src/resolver) gives it types, src/bytecode translates it to an intermediate code, and
-- src/x64_gen to machine code: ir_to_xir.c selects instructions over logical registers, livevar.c
-- computes the intervals in which these are live, reg_alloc.c assigns physical registers and stack
-- slots to them, and the rest encodes the instructions and writes an ELF file.
--
-- What models what:
--   Prelude         shared names, Boolean tests, lists measured by native numbers, and the bit masks
--                   u32_set_bit and u32_is_bit_set of src/cstring.c
--   Regs            src/x64_gen/regs.h and regs.c: registers, classes, and the target of Linux
--   RegAlloc        src/x64_gen/reg_alloc.c, with the data of src/x64_gen/xir.h
--     State         XIR_RegRange, XIR_RegLoc, X64_IntervalList, XIR_RegAllocState
--     Aliases       XIR_find_alias_reg and XIR_alias_regs of src/x64_gen/ir_to_xir.c
--     Order         X64_lreg_interval_list_add_by_start and _by_end, and removal
--     Scan          X64_next_reg, X64_steal_reg, X64_spill_reg_loc, and the main loop
--     CallSites     the masks of the call sites, and X64_linear_scan_reg_alloc as a whole
--     Invariant, Effects, Conflict, Collect, Facts, Handled, Saves, Runs, Safety
--                   the invariant of the main loop, what each step does to it, and the results
--   Live            src/x64_gen/livevar.c, for the allocator
--     Instrs        the instructions of src/x64_gen/xir.h, and the registers that each touches
--     Intervals     XIR_touch_lreg, XIR_compute_live_intervals
--     Covers, Touches, Spans, Shared
--                   what the ranges reach over, and what the allocator makes of them
--   Encode          src/x64_gen/machine_code.c
--     Addr          x64_reg_val, X64_modrm_byte, X64_rex_prefix, X64_get_addr_bytes
--     Text          X64_write_imm_bytes, X64_write_addr_disp, X64_record_global_entity_offset_usage
--     Writers       the X64_write_elf_ functions of integers
--     Instrs        ADD, SUB, AND, OR, XOR, CMP, IMUL, MUL, DIV, IDIV, NEG, NOT, SHL and SAR of
--                   X64_elf_gen_instr, with IMUL of one operand only
--     Decode        how the processor reads an instruction, by its manual; no code of the repository
--     Bytes, Operands, Addresses, Fronts, Prefixes, Meaning, Opcodes, Forms, Sizes, BinaryForms,
--     UnaryForms, Reads, Patches
--                   the bytes in digits, what is read of each part, that the instruction is read back, and
--                   the relocations of its operand
--   Jumps           src/x64_gen/machine_code.c
--     Relax         X64_get_bblock_best_case_size, X64_update_jmp, the loop of X64_elf_gen_instrs
--     Offsets, Steps, Passes, Bounds, Loop, Lands, Settles
--                   sizes that only grow and stay in range, an iteration, and the jumps when the loop has ended
--   Lexer           src/lexer/module.c, with the tables of src/cstring.c
--     Chars         char_props, char_to_biased_digit, escaped_to_char
--     State         Lexer, and its small steps: lexer_on_error, lexer_on_line, skip_char
--     Comments      skip_c_comment
--     Numbers       scan_digits, scan_int, scan_float
--     Literals      scan_hex_escape, scan_string, scan_char
--     Operators     the operators and the punctuation of scan_token
--     Tokens        scan_token
--     Escape        cstr_escape of src/cstring.c
--     Names         token_kind_names
--     Digits, Spelling, Longest, Nesting, RoundTrip, Passes, Progress, Within, InText, Bounds
--                   what the lexer's results mean, that it ends, and that it stays in its text
--   HashMap         src/hash_map.c
--     Hash          hash_uint64, hash_mix_uint64, hash_bytes
--     Table         HMap, hmap, hmap_expand, hmap_put, hmap_get
--     Index, Probe, Represents, Store, Rehash, Refine
--                   the slots a probe visits, the map that a table stands for, and the results
--   Intern          src/nibble.c, over the hash table
--     Pool          intern_str_lit, intern_ident, and cstr_ncmp of src/cstring.c
--     Compare, Chains, Unique
--                   the comparison, the chains of equal hashes, and that equal strings share an object
--   Types           the kinds of integers of src/nibble.c, and src/ast/module.c
--     Kinds         int_kind_sizes, int_kind_signed, int_kind_max, int_kind_min, type_integer_ranks
--     Layout        complete_struct_type, complete_union_type
--     Powers, Fields, Apart, Overlay
--                   rounding up to powers of two, and what the layouts give
--   Arith           src/resolver/exprs.c
--     Operands      cast_eop on constants, promote_int_eops, convert_arith_eops
--     Literals      get_int_lit_type, resolve_expr_int
--     Common, Lossless
--                   the common type of two operands, and that promotion keeps a value
--   Switch          src/resolver/stmts.c and src/bytecode/procs.c
--     Values        eval_binary_logical_op_64bit of src/const_eval.c
--     Cases         qsort_cases and the check of resolve_stmt_switch, the search of IR_emit_stmt_switch
--     Swaps, Partition, Sort, Disjoint, Search, Choose
--                   exchanges of cases, the sorting, the check, the search, and the three together
--
-- How state is represented. A logical register is its number, and an interval is named by the number
-- of its register in lreg_ranges; the lists that the code threads through the intervals are lists of
-- such numbers. Positions are one more than in the source, where they start at -1. The allocator's
-- functions take a state and give a state; where the source reports no success or an assertion of it
-- does not hold, the result says so. A mask is a number below 2^32, on the native bit operations. The
-- lexer's text is the list of bytes up to the terminating zero. Moving on from its end sets a flag,
-- since what the source would read there is not defined, and leaves the list empty. Positions and the
-- numbers of literals wrap around as the source's u32 and u64 do. The text of a basic block is a list
-- of bytes; displacements and immediates, which are s32 in the source, are two's complements below 2
-- ^ 32, and so are the offsets of stack slots. The offset of a jump, also an s32, is a number of
-- bytes forward or backward; the sizes that it adds up, and the conversions from u32, wrap around. An
-- assertion of its sign that does not hold ends the loop without a result.
--
-- Fuel. XIR_find_alias_reg runs on the number of registers: a link leads to a larger set, so no path
-- is longer. The loops of the allocator run over their lists. scan_string and scan_token take fuel,
-- of which one more than the number of characters left is enough; the other loops of the lexer run
-- over the characters. The probes of the hash table take as much fuel as it has slots, since one of
-- them is empty; hmap_put and hmap_expand call each other to a depth of two, since a table of twice
-- the size has room. The walk along a chain of objects takes as much as there are objects, since
-- links lead to older ones. qsort_cases takes a depth that is not below the number of cases, and the
-- search for a case one more than their number. The loop over the jumps takes one more than there
-- are blocks, since each iteration but the last makes a jump long.
--
-- Not modelled. The table of keywords and identifiers that the lexer asks and the C library's reading
-- of a floating point literal are parameters of the lexer. How the machine converts a float constant
-- is a parameter of the casts. Whether there is memory is a parameter of the hash table and of
-- interning. Of the hash table, hmap_clear, hmap_destroy and hmap_get_obj are left out. Memory
-- arenas, files, the command line, printing, the parser, the rest of the resolver and of the
-- intermediate code, instruction selection and the ELF writer are left out. Of X64_elf_gen_instr,
-- MOV, MOVSX, MOVZX, the MOV of floats and the other operations on them, IMUL with two or three
-- operands, SETCC, LEA, PUSH, POP, CALL, RET, CWD, CDQ, CQO, MOVDQU, REP_MOVSB and the opcodes of
-- jumps are left out. Linux is the only target that the source has tables for.
pub mod Prelude
pub mod Regs
pub mod RegAlloc
pub mod Lexer
pub mod HashMap
pub mod Types
pub mod Switch
pub mod Intern
pub mod Arith
pub mod Live
pub mod Encode
pub mod Jumps
