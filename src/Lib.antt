-- ===== src/Lib.antt =====
-- The verification library of ymd, a small scripting language in C: lexer, one-pass compiler,
-- instruction format, stack machine, containers, garbage collector and serialisation.
--
-- Each file models one part of the C code; its first comment names the part.
-- Common: numbers, lists, bits, signed integers that the other modules share.
-- Asm (assembly.h): the 32-bit instructions that compiler.c emits and call.c decodes. Asm.Fields
--   has the theorems on the fields.
-- Encoding (encoding.c, encoding.h): variable-length integers, the zigzag map, and in
--   Encoding.Literal the numbers and string literals that compiler.c takes from tokens.
-- Lex (lex.c, lex.h): Lex.Chars has the tokens and the classes of characters, Lex.Scan the cursor
--   and the scanners, Lex.Next the function lex_next. The other modules below Lex have the
--   theorems.
-- Dyay (dynamic_array.c): the growing array.
-- Kstr (string.c; kz_hash and kz_compare of value.c; vm_strcat of state.c, in Kstr.Concat):
--   string objects and the pool that interns the short ones. Kstr.Buckets and Kstr.Copies carry
--   the invariant of the buckets, Kstr.Pool the theorems on kpool_index.
-- Stack (state.h): the operand stack, with the theorems in Stack.Contents.
-- Chunk (closure.c): instructions, constants and locals of a function under compilation, with the
--   theorems in Chunk.Constants and Chunk.Growth. Its strings come from the pool of Kstr.
-- HashMap (hash_map.c): the hash map, whose chains run through one block of items. HashMap.Valid
--   has what holds between operations, with chains as lists of indices (HashMap.Chains,
--   HashMap.Walk); HashMap.Head, HashMap.Append, HashMap.Replace and HashMap.Displace are the
--   four ways to store, HashMap.Put and HashMap.Move find the one that the code takes, and
--   HashMap.Resize and HashMap.Refine follow the growth of the table. The record Keys is what the
--   map takes of variables.
-- Value (value.c, hash_map.c, dynamic_array.c): the hash, the equality and the order of variables.
--   Value.Lawful shows that they serve the map.
-- SkipList (skip_list.c): the skip list, with its nodes at addresses and the level of a new node as
--   rand and time draw it. SkipList.Ordered is the order of the nodes.
--   SkipList.Search and Find follow the search, SkipList.Insert, Place and Append a new node,
--   SkipList.Put, Rewrite and Stored the two cases of a store, and SkipList.Refine many stores. The
--   record Order is what the list takes of variables; SkipList.Precedes and SkipList.Keys fill it
--   with compare and equals of value.c, on the keys that these order.
-- Members (state.c, value.c): the members of maps, arrays and managed data (vm_get, vm_put, mand_get,
--   mand_put) and the globals, on the hash map of HashMap. Skip lists are a record of operations.
-- Stream (zstream.h): the output buffer and the input cursor of the serialiser, on the encoders
--   of Encoding. Stream.Output has the block and its growth, Stream.Writes and Stream.RoundTrip
--   the theorems.
-- Vm (call.c): vm_run. Vm.State has the context of a call, Vm.Arith the 64-bit arithmetic,
--   Vm.Ops, Vm.Transfers and Vm.Objects the instructions, Vm.Run the loop; Vm.Operands, Vm.Steps
--   and Vm.Exec carry the lemmas on the stack, on single instructions, and on runs of a piece of
--   code. The record Services holds what vm_run takes from other files: equality and order of
--   values, containers, globals, strings, functions and calls.
-- Compiler (compiler.c): Compiler.Emit has the parser's state and the generation of code,
--   Compiler.Syntax the operators, Compiler.Expr the parser of expressions with parse_closure as
--   a parameter, Compiler.Lval, Compiler.Loops, Compiler.Stmt and Compiler.Function the
--   statements, and Compiler.Program parse_stmt, which ties them together, and ymc_compile.
--   Compiler.Tree has expressions as trees, with their code and their value in a context;
--   Compiler.Operators, Compiler.Jumps, Compiler.Computes and Compiler.Execute run that code on
--   the machine. Compiler.Grammar has expressions as they are spelled, with their tokens, and the
--   trees that they denote; Compiler.Emission, Compiler.Outcome and Compiler.ParseExpr carry the
--   lemmas on what the parser adds to the chunk, Compiler.Meaning has the value of an expression
--   as it is written, and Compiler.Correct composes the parser with the machine.
--   Compiler.Loops.Jumps and Compiler.Loops.Run follow the jumps of a loop, Compiler.Endless the
--   keyword `with`.
--
-- A C string is the list of its characters without the closing NUL, and characters are those of
-- ASCII. A pointer into a text or a block is an index. Machine words are natural numbers with the
-- reduction modulo 2 ^ w written out; an `int` that counts elements or characters is a natural number
-- without a bound. A failed assertion and a read past a buffer are values of their own (`none`,
-- `aborts`, `overrun`).
--
-- Fuel: lex_next takes two bounds, the rounds of its own loop and the rounds of the loop of
-- string literals. Each theorem that gives a token asks for one round more than it uses, and for
-- more fuel than the literal has characters. vm_run takes the number of rounds. The parsers of
-- compiler.c take the depth of their recursion, which also bounds their loops; for an expression
-- its size is enough. The loops along a chain of a hash map take as many rounds as the table has
-- items, and hindex and resize a depth of two, since a grown table is not grown again. hash, equals
-- and compare take the depth to which containers are nested. The loops of a skip list take a round
-- more than it has nodes. All other loops recur on a list or on a counter.
--
-- Not modelled: the allocator and the accounting of memory, input and output, the regular
-- expressions of 3rd/regex, the built-in functions of the language, and the test programs; and so
-- far the serialisation, the garbage collector, and the frames of calls (ymd_call and the
-- protected calls). A shift by the `shift` of a table is taken as a power of two without a bound.
-- The record Services of vm_run is not yet filled by Members.
pub mod Common
pub mod Asm
pub mod Encoding
pub mod Lex
pub mod Dyay
pub mod Kstr
pub mod Stream
pub mod Stack
pub mod Chunk
pub mod HashMap
pub mod Value
pub mod SkipList
pub mod Vm
pub mod Members
pub mod Compiler
