-- ===== src/Lib.antt =====
-- eta is a Lisp with logic variables and constraint domains: the reader and the analyser turn
-- source text into a core representation, the passes optimize it, the emitter compiles it to
-- bytecode, and a virtual machine runs that over NaN-boxed values, a heap with a pool of cons
-- cells, fact tables and finite domains. This library models the parts whose logic stands by
-- itself. Paths are from the repository's root.
--
-- - NanBox: eta/core/src/eta/runtime/nanbox.h. `box`, `tag`, `payload`, and `encode` and `decode`
--   with one function for each type that the templates are used at. A double is its bit pattern.
-- - TapeRef: eta/core/src/eta/runtime/types/tape_ref.h, packed references on top of NanBox.
-- - Bytecode: eta/core/src/eta/runtime/vm/bytecode.h, the tag of function indices in a constant
--   pool and `rebase_func_indices`.
-- - Numeric: eta/core/src/eta/runtime/overflow.h in both of its forms, and the end of
--   `VM::do_binary_arithmetic` in eta/core/src/eta/runtime/vm/vm.cpp, from where the operands are
--   classified. The arithmetic of doubles is a parameter (`Doubles`).
-- - Clp: eta/core/src/eta/runtime/clp/domain.h. Clp.ZDomain, Clp.FdDomain (the chunked bit set,
--   with Clp.Words and Clp.BitSet below it), Clp.RDomain (comparisons of doubles are those of IEEE
--   754 on bit patterns) and Clp.Domain, which chooses among them.
-- - FactTable: eta/core/src/eta/runtime/types/fact_table.h. The state is the record `FactTable`;
--   an index is a list of entries, since the order of an `unordered_multimap` is not specified,
--   and the theorems count occurrences.
-- - ConsPool: eta/core/src/eta/runtime/memory/cons_pool.h. A pointer to a slot is the id of the
--   slot; the free list is followed through the slots. ConsPool.Chain says what holds between
--   calls.
-- - Ir: eta/core/src/eta/semantics/core_ir.h, eta/core/src/eta/semantics/ir_visitor.h, the passes
--   in eta/core/src/eta/semantics/passes and eta/core/src/eta/semantics/optimization_pipeline.h.
--   Ir.Meaning is what the passes are judged by: any compositional meaning in continuation-passing
--   style in which constants, variables and quotes only push a value and `Begin` runs its parts in
--   order. Specialisation also takes that a global which is never assigned and named for a builtin
--   holds it. Constant folding is compared with Numeric.
-- - InternTable: eta/core/src/eta/runtime/memory/intern_table.h and
--   eta/core/src/eta/runtime/memory/intern_table.cpp. `intern` is a sequence of atomic steps, one for
--   each operation on a concurrent map or on the counter (`step`); InternTable.Threads runs any
--   number of calls in any interleaving, InternTable.Alone runs one.
-- - Serializer: eta/core/src/eta/runtime/vm/bytecode_serializer.h,
--   eta/core/src/eta/runtime/vm/bytecode_serializer.cpp and the records of
--   eta/core/src/eta/runtime/vm/bytecode.h. Serializer.Stream has the readers and writers of words and
--   strings, Serializer.Constants `write_constant` and `read_constant`, Serializer.Artifact the rest of
--   `serialize`, `deserialize`, `verify_function` and `check_freshness`. The heap and the intern table
--   are the interface Serializer.Memory; Serializer.Memory.Growing fills it with the table of
--   InternTable and a list of objects.
-- - Linker: eta/core/src/eta/reader/module_linker.h and eta/core/src/eta/reader/module_linker.cpp.
--   Linker.Index reads the module forms, Linker.Order is `CycleDetector`, Linker.Imports has the lemmas
--   on import clauses and Linker.Link the rest of `link`. A hash map is a list, in any order.
--
-- The parts interact by values: FactTable and ConsPool store the boxed words of NanBox, Ir.Fold
-- must agree with Numeric, Clp.Domain combines the three kinds of domain, and Serializer writes the
-- words of NanBox and Bytecode and interns their texts. Linker stands before all of these: it works on
-- the forms that the reader gives.
--
-- Bounds: an `int64_t` is an integer; where the source adds or subtracts without a test, the
-- result is exact here, and the definition is about the source only where it does not overflow,
-- which the source leaves undefined. Unsigned words wrap (`% 2 ^ 64`). The loop over the set digits of a word (`each_set_digit`) is given 64 rounds: each
-- clears a digit of a word of 64, and Clp.Words compares it with a walk over the digits.
-- Constants nest: writing one takes fuel for the depth of its data, which a cyclic structure
-- would exhaust, and reading one takes the length of the stream, since each level takes a byte.
-- The search for a link order takes fuel for all names of modules, since each level opens
-- another one. An intern call ends after five steps, and fewer than 2 ^ 64 steps are taken in
-- all, so that the counter does not wrap. All other loops are structural.
--
-- Not modelled: the reader, the analyser, the emitter, the dispatch loop, the collector and
-- packages, which rest on the whole heap or on containers and files; the solvers, which are
-- arithmetic of doubles; the primitives and the tools, which are glue; the hash of a source and
-- the fingerprint of a build, which are library code or made by the compiler. Ir.Meaning
-- takes the reading of a variable to succeed and a sequence to patch no closures, unlike the emitter
-- and the VM. No collection is taken to run while an artifact is loaded.
pub mod Prelude
pub mod NanBox
pub mod TapeRef
pub mod Bytecode
pub mod Numeric
pub mod Clp
pub mod FactTable
pub mod ConsPool
pub mod Ir
pub mod InternTable
pub mod Serializer
pub mod Linker
