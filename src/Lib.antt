-- ===== src/Lib.antt =====
-- luster: a virtual machine for Lua in Rust, over a garbage collected arena.
--
-- The program has these parts. The lexer (src/lexer.rs) and the parser (src/parser.rs) make a syntax
-- tree; the compiler (src/compiler) turns it into prototypes of instructions (src/opcode.rs) over
-- registers and a constant table; a thread (src/thread) runs the instructions of a closure on a
-- stack of values (src/value.rs), among them tables (src/table.rs) and strings (src/string.rs).
-- Every object lives in an arena (gc-arena), and callbacks are sequences of steps (gc-sequence).
--
-- Modules and the code that they model:
--   I64          the `i64` arithmetic of src/value.rs and src/lexer.rs, on bit patterns below 2 ^ 64
--   Float        `f64`: a record of the operations that the code uses, a parameter of what uses it;
--                `FloatLaws` is what IEEE 754 says of `==` and of the bits; Float.Whole is an
--                instance for the tests
--   LuaString    src/string.rs: representations, bytes, comparison
--   Lexer        src/lexer.rs: white space, comments and long strings; Lexer.Reading has the lexer's
--                state, Lexer.ShortString short strings, Lexer.Tokens and Lexer.ReadToken the tokens;
--                Lexer.LongString, Strings, Names and Numerals have what is read back
--   Parser       src/parser.rs: the syntax tree (Parser.Syntax), the methods that read tokens and the
--                loops (Stream), the priorities (Priority), expressions (Expressions, Suffixes),
--                statements (Statements), and the guards with `parse_statement`,
--                `parse_sub_expression` and `parse_chunk` (Chunk); Takes, Rounds and Shape are about
--                its loops and operators, Manual has the levels of Lua's manual, Errors what is
--                refused, and Print the tokens of a tree and the way back
--   Numbers      src/lexer.rs: `read_integer`, `read_hex_integer`, `read_float`, `read_hex_float`;
--                Numbers.Integers has the unbounded value of digits
--   Value        src/value.rs: equality, conversions and every operator
--   Constant     src/constant.rs
--   Types        src/types.rs: `Opt254` and `VarCount`
--   OpCode       src/opcode.rs: all 98 instructions
--   HashMap      what the table relies on of the standard library's hash map
--   Table        src/table.rs: `get`, `set` (here `set_value`) and `length` (`table_length`), with
--                the growth of the array part (Table.Size) and the two loops of `length`
--                (Table.Search); Table.Lookup and Table.Set have the table as a map
--   Registers    src/compiler/register_allocator.rs
--   Operators    src/compiler/operators.rs: the choice of an instruction and constant folding;
--                Operators.Correct, Compare and Folding put it against Vm
--   Vm           src/thread/vm.rs: the instructions that work on one frame's registers and constants;
--                Vm.ForLoop has the loop on integers
--   Math         src/stdlib/math.rs: the functions and constants of `math`; Math.Laws has `max`, `min`
--                and `random`
--   Gc           gc-arena/src/context.rs and arena.rs: the state of the collector, allocation and the
--                write barrier (Gc), the rounds of `do_collection` (Gc.Collect), the invariant
--                (Gc.Valid), the runs of mutator and collector (Gc.Steps, Gc.Runs), the collections
--                that an arena starts (Gc.Arena), `Drop` (Gc.Free), and gc-arena/src/types.rs: the
--                byte of flags (Gc.Flags)
--   Sequence     gc-sequence/src: the combinators, those on results (Sequence.Results), what they come
--                to (Sequence.Finish, AndChain, Fused), and the arena that holds a sequence with the
--                loop of src/lua.rs (Sequence.Sequencer)
--
-- Conventions. A method that mutates returns the new state. `Run` (Prelude.Run) is a value or a
-- panic, and the build is a checked one: an arithmetic overflow panics, as in a debug build; a
-- release build wraps there. `Vm.Outcome.Step` adds the error that `?` returns, and `outside` for an
-- instruction that is not modelled. A pointer is the address that its comparison sees, and an
-- index newtype is its number.
--
-- Parameters. `Float` for the hardware's and the standard library's floats. `HashMap.Policy` for
-- the capacities that the allocator hands out, which are at least what was asked for. The hash map
-- is a list of entries that is searched for equal keys. What is fed to the hasher is modelled, the
-- hash function is not: `HashMap.Hashing` says which keys a lookup compares, those with the same hash
-- input and possibly others. `Math.Elementary` for the functions on
-- floats that `math` calls, and `Math.Rng` for its generator of random numbers.
--
-- The lexer. The source is the list of the bytes that are left; a read of it does not fail, and what
-- has been peeked at is not apart from what has not been read. A loop runs on fuel, and a method that
-- runs out of it is none of a value, an error and a panic.
--
-- The parser. Its state is the list of the tokens that `read_token` still gives, with the end or an
-- error behind them; what its buffer holds is not apart from the others. A tree that holds a list of
-- trees is one of a block of mutual types. The methods that take a guard are a record, by recursion on
-- the guards that may still be taken, of which there are 199. A loop runs on as much fuel as there are
-- tokens, and one more.
--
-- Sequences. A sequence is a step function on its state; the arena that steps mutate is a parameter,
-- and in the loop so are its collections and write barrier. A closure may panic.
--
-- The arena. Each field of the boxes is a map from addresses, and a box is live from its allocation
-- until it is freed; a read of a box that is not is a panic. The bytes of all boxes
-- are not bounded; the sums at the end of a sweep and of what it keeps are those of `usize`. A write
-- gets the cells that are borrowed at the call. What a value holds is the list of pointers that its
-- `Collect::trace` visits. The lifetimes of the code let the
-- mutator hold only pointers that it has allocated or loaded since the last collection.
--
-- Fuel. `do_collection` runs on fuel, and `Gc.Advance.measure` bounds the rounds that are left:
-- every round lowers it. `allocate` scans 256 registers, `Table.Search` runs 64 rounds, since every
-- round halves or doubles a number below 2 ^ 63; `highest_bit` runs 8 rounds, since every round drops
-- 8 bits. The theorems on these operations state the result, so that the fuel is enough.
--
-- Not modelled: reads of the source that fail, the compiler apart from its allocator and
-- operators, the thread's frames and calls, upvalues and closures, the instructions on tables,
-- callbacks, the standard library but `math`, string interning and concatenation, errors' messages,
-- input and output, the three programs.
pub mod Prelude
pub mod I64
pub mod Float
pub mod LuaString
pub mod Lexer
pub mod Numbers
pub mod Value
pub mod Constant
pub mod Types
pub mod OpCode
pub mod Operators
pub mod Parser
pub mod HashMap
pub mod Table
pub mod Registers
pub mod Vm
pub mod Math
pub mod Gc
pub mod Sequence
pub mod Tests
