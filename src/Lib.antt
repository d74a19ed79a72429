-- ===== src/Lib.antt =====
-- Cuttlesim: the C++ runtime of Kôika, a hardware description language with rules.
--
-- ocaml/backends/resources/cuttlesim.hpp is included by every simulator that Kôika's compiler
-- generates. It gives bit vectors (namespace `prims`) and registers with read-write sets
-- (namespace `cuttlesim`): a rule of a design reads and writes a log of its own, and its log
-- joins the log of the cycle when the rule commits.
--
-- - Prelude: shared names, lists, loops, signed integers, binary digits, powers of two.
-- - Bits: `bits<sz>`, a number below 2 ^ sz in a storage type of 8, 16, 32 or 64 digits. Every
--   operator is the C++ expression, with its casts, masks and promotions; a shift that C++ leaves
--   undefined is `none`. Bits/Slice holds slices, substitution and concatenation, Bits/Signed the
--   signed views, comparisons, arithmetic shifts and sign extension, Bits/Assign `bits<0>` and
--   the compound assignments. Widths above 64 rest on Boost and are outside the theorems.
--   Bits/Arrays packs and unpacks arrays.
-- - Registers: `reg_rwset`, `wire_rwset`, `ehr_rwset`, `read0` to `write1`. Registers/Rule runs
--   rules as the macros READ0, READ1, WRITE0, WRITE1, FAIL and COMMIT do; `commit_RULE` and
--   `reset_RULE`, which the compiler generates, are here a parameter that has to copy one log to
--   the other (Compiler has them as they are). Registers/Spec is the reference semantics of
--   coq/Logs.v, Registers/Refine the refinement, Registers/Atomic the atomicity of cycles,
--   Registers/Fast the macros without checks, Registers/Function the macros FN_RETURN and
--   CALL_FN, Registers/Dynamic those that end in DOL.
-- - Compiler: what ocaml/backends/cpp.ml makes of a design. Compiler/Action has actions, their
--   meaning as rules, and the analysis of their accesses in coq/TypedSyntaxFunctions.v, whose
--   three-valued histories stand in Compiler/History; Compiler/Code is the code of a rule with
--   the footprints that its RESET and COMMIT copy and the macros that it uses, Compiler/Schedule
--   that of schedules and cycles, with the reference semantics of coq/TypedSemantics.v.
--   Compiler/Simulation compares the two, Compiler/Ports the kinds of registers with the calls,
--   Compiler/Random is about randomized runs, Compiler/Atomic about the rules of a cycle one at a
--   time, Compiler/Stale about FAIL_FAST, Compiler/Load about values put into one log only, and
--   Compiler/Warning about the warning that a rule reads a register at port 1 after writing it
--   there. Values are numbers; internal calls are
--   inlined; Compiler/Order says which operands the compiler evaluates in their order.
-- - Text: `of_str`, the printing of `bits_fmt`, `array_fmt` and byte arrays, and the literals of
--   namespace `literal_parsing`. A character is its code. Text/Format/Output is `fmt`, `repr`,
--   `display` and `putstring`; Text/Number is what a stream and strtoull read as a number.
-- - Vcd: the lines of VCD files, which dump and restore the registers: `dumpvar`, `read_header`
--   and `readvar`; Vcd/Header what begin_header, var and end_header print; Vcd/State the
--   functions `vcd_dumpvars` and `vcd_readvars` that ocaml/backends/cpp.ml prints for a design.
--   The loop of `vcd_readvars` has one turn more of fuel than the file has lines; each turn takes
--   a line.
-- - Driver: `sim_metadata`, `snapshot_t`, `init_and_run`, `report` and `main`, with the loop
--   `run` that ocaml/backends/cpp.ml prints for a design, and the devices of
--   examples/rv/etc/rvcore.cuttlesim.cpp. The rules of the design are a parameter. Driver/Trace
--   is a run with a trace, Driver/Resume the program of
--   examples/save_restore.v.etc/save_restore.cpp, Driver/Schedule the cycles of a scheduler and
--   the randomized ones, Driver/Params the command line, Driver/Extfuns the external functions of
--   the examples function_call and fir.
-- - Memory: `struct bram` of examples/rv/etc/rvcore.cuttlesim.cpp, a memory with one pending
--   request.
-- - Elf: `ElfFile` of examples/rv/tests/elf2hex/ElfFile.cpp and, in Elf/Load, `elf_load` of
--   examples/rv/etc/elf.hpp, on the bytes of a file. A read or a copy outside of a buffer is
--   `none`.
-- - RvCore: the rest of examples/rv/etc/rvcore.cuttlesim.cpp: the memories with a program in
--   them, which elf_load puts there, and the `main` of the simulator.
-- - Hex: examples/rv/tests/elf2hex/elf2hex.cpp. Its loops run on fuel: one turn more than the
--   section has bytes, and each turn but the last advances by a word. Hex/Arguments is the
--   command line, Hex/Main the whole program.
-- - Verilator: ocaml/backends/resources/verilator.hpp, with the design as a parameter.
--   Verilator/Trace is the same with TRACE defined; Verilator/Bench holds the drivers of the
--   examples fft, fir and cosimulation.
--
-- The parts meet where one takes the functions of another: Compiler runs on the sets of
-- Registers, Memory merges words by the operators of Bits, Vcd prints and parses by Text,
-- Driver/Trace writes and Driver/Resume reads files by Vcd, Hex dumps the sections of Elf, and
-- RvCore loads files by Elf into the memories of Memory and runs them by Driver.
--
-- Not modelled: how the compiler prints expressions, types and names, the clock (input and
-- output), the macros READ0_DL to COMMIT_DL (those that write do not compile), vectors above 64
-- bits (Boost), what `strobe` prints (that of rvcore.cuttlesim.cpp does not compile).
pub mod Prelude
pub mod Bits
pub mod Compiler
pub mod Driver
pub mod Elf
pub mod Hex
pub mod Memory
pub mod Registers
pub mod RvCore
pub mod Text
pub mod Vcd
pub mod Verilator
