-- ===== src/Lib.antt =====
-- A verification library for the compiler of the language Djinn (C++): its lexer, the part of its
-- parser that reads types, the tracker with which its binder follows moves and borrows, and the
-- values and the virtual machine with which it evaluates constant expressions at compile time.
--
-- The compiler reads a source through `Lexer::tokenize`; the parser builds a syntax tree from the
-- tokens, the binder checks it, and the generator emits LLVM IR. `const` expressions are compiled to
-- a bytecode and run by `ConstVM`, whose results become literals of the program.
--
-- The files, with the code that they model:
--   Base, Base/*            shared names, lists and Boolean tests over the native numbers, byte
--                           strings, signed integers, and `std::map` as a list of entries.
--   Ast, Ast/*              parser/ast/Expression.h and Statement.h, as far as the evaluator tells
--                           their classes apart, and the kinds of parser/ast/Type.h.
--   Ast/TypeNames, DjinnType
--                           parser/ast/Type.h: the names of integer types, and `Type`; Copies is about
--                           its copy constructor and its equality, Names about toHumanString.
--   Lexer/Token, Keywords   lexer/Token.h, lexer/TokenType.h, and the keyword table of
--                           lexer/Lexer.cpp. `var` and `auto` are one token type, as there.
--   Lexer/State             the members of `Lexer` and peek, peekNext, advance and make_token.
--   Lexer/Trivia            skip_whitespace, with its inner loop over a comment.
--   Lexer/Strings, Numbers, Identifiers
--                           read_string, read_number and read_identifier.
--   Lexer/Operators         the switch of `tokenize`, one function for each group of cases.
--   Lexer/Tokenize          the loop of `tokenize`.
--   Lexer/Cursor, Lexeme, and the children of the readers
--                           what it means to read a text, and the proofs about each reader. Grammar,
--                           under Numbers, is the grammar of numbers; Longest, under Operators, has
--                           the table of operators; Lexemes and Covers, under Tokenize, say what the
--                           whole loop returns.
--   ConstEval/Words         `int64_t` and `uint64_t` as integers and numbers, wrap-around written out.
--   ConstEval/Int128, Value evaluator/ConstValue.h: `Int128` and `ConstValue`.
--   ConstEval/Fit           evaluator/ConstEvaluator.cpp: limitsFor, the three overflow checks and
--                           fitInt; parser/ast/Type.h: OverflowMode.
--   ConstEval/Code          evaluator/ConstEvaluator.h: OpCode, Instruction, CompiledFunction,
--                           ConstEvalConfig, CallFrame.
--   ConstEval/Vm, Vm/*      evaluator/ConstEvaluator.cpp: `ConstVM`. Arith has the cases that compute,
--                           Calls those for locals and calls, Dispatch the switch, Execute the loop;
--                           Bounds, Reach, Returns and Frames are proofs.
--   ConstEval/Compiler, Compiler/*
--                           evaluator/ConstEvaluator.cpp: `BytecodeCompiler`, with a child each for
--                           literals, expressions, statements and functions. Means is a reference
--                           semantics of expressions; Grows, Runs, Leaves, Operators and Correct prove
--                           that the code computes it.
--   ConstEval/Evaluator, Evaluator/*
--                           evaluator/ConstEvaluator.cpp: `ConstEvaluator`, and what it returns.
--   Parser/Cursor           parser/Parser.cpp: peek, advance, check, match, expect.
--   Parser/Types            parser/Parser.cpp: parse_type. Ends is about its termination; Written has
--                           the types that a source can write, with their tokens; Reads, RoundTrip and
--                           Splits are about what is read from them.
--   Ownership/State         binder/ownership/OwnershipState.h: one variable and its borrows.
--   Ownership/Tracker       binder/ownership/OwnershipTracker.cpp: scopes, checks and operations.
--   Ownership/Checked       binder/expressions/VariableBinder.cpp: an operation follows the check that
--                           allows it, as a step relation on trackers.
--   Ownership/Consistent, Moves, Borrows, Scopes
--                           the proofs about the tracker.
--
-- The lexer is explicit state passing over the record `Lexer`. `rest` is the source from `pos` on. The
-- exception of read_number is the error `invalid_exponent` of `Result`. The loops of the readers are
-- recursions on the text that is left; `tokenize` and `skip_whitespace` have fuel for each character
-- of the text (the former for one round more), and each round consumes at least one, so that fuel
-- never runs out. Characters are bytes, and are classified as in the C locale; `uint32_t` positions wrap.
--
-- The machine is explicit state passing over the record `Vm`, in the error type `Step`: an instruction
-- goes on, ends the evaluation with a value, raises the exception of push or pop, or has no defined
-- behaviour in C++ (an index beyond a vector, a shift by a count outside 0 ... 63). The loop has
-- `maxIterations` rounds, the bound of the code itself. `double` and its operations are the
-- parameter `Doubles`, of which no law is assumed. Signed overflow in `a + b`, `a - b` and `a * b`,
-- which C++ leaves undefined, is two's complement wrap-around, as fitInt relies on.
--
-- The parser is explicit state passing over the record `Parser`, in which the tokens are split at
-- `current`. A diagnostic is `failed` with its code; its text is not modelled, but the token before
-- `current`, whose place it takes, must be there: without one the behaviour is `undefined`. parse_type has fuel
-- for two steps at each token that is left, which is enough since each recursive call stands behind a
-- token. A `Type` is without its place in the source.
--
-- The compiler is explicit state passing over the record `Compiler`; `_hadError` is a field, tested
-- where the code tests it, and an exception of the standard library is `threw`. `std::stod` and
-- `std::pow` are the parameter `Numerals`, of which no law is assumed; std::stoll and std::stoull are
-- written out. Pools and tables have `uint32_t` indices. A null block is the empty block.
--
-- The tracker is a record of maps; a failed check is an exception of the binder, so it has no next
-- state. Of a type the tracker reads the kind and whether it is transparent; `uint32_t` depths wrap.
--
-- Not modelled: the logging, and the heap of `ConstVM`, which no instruction uses; the rest of the
-- parser and of the binder, the generator, jit, lib, lsp, config, diagnostics and runtime, since they
-- build LLVM IR, do input and output, or work on the whole tree.
pub mod Base
pub mod Ast
pub mod Lexer
pub mod ConstEval
pub mod Ownership
pub mod Parser
