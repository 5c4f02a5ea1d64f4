-- ===== src/Lib.antt =====
-- robsd: scripts and C programs that build OpenBSD releases, ports and regress tests. This library
-- models the C code that keeps the files of a build: the step file, in which each step of a build is
-- a row; the templates that are expanded over it; the configuration of a build, with its variables
-- and the steps that it gives; the logs of regress tests; and parts of the reports made from them.
--
-- The parts, and the files that model them (paths are those of the repository):
--
--   * lexer.c, token.h: Lexer, with Lexer/Cursor (the walk over tokens), Lexer/Input (bytes and
--     lines), Lexer/Open (walks that end at the end of the file). The token list is `lx_seen`, the
--     tokens behind the pointer, newest first, and `lx_ahead`.
--   * interpolate.c: Interpolate. The callback `lookup` is an argument that passes its own state.
--     Interpolate/Template has an independent description, templates as trees.
--   * compat-strtonum.c: Strtonum, with strtoll in base 10, and the decimal output of printf.
--   * mode.c, mode.h: Mode.
--   * step.c, step.h: Step has fields and steps; Step/Lex the callback of the lexer, Step/Parse the
--     parser, Step/Write the writer, Step/Find and Step/Duration what is read off a file.
--     Step/Complete is the invariant that fields have values of their types; Step/Stored describes
--     the files that are written, and Step/RoundTrip reads them.
--   * robsd-step.c: RobsdStep, one function for each action: `steps_read`, `action_write` and, in
--     RobsdStep/Listing, `steps_list`.
--   * regress-log.c, robsd-regress-log.c: RegressLog.
--   * report.c: Report, the functions on texts, the status and durations.
--   * html.c, html.h: Html; the macros of html.h are `emit` of Html/Nodes.
--   * conf.c, conf-token.c, variable-value.c and conf-*.c for the modes: Config, whose files are listed
--     there. The state is the record `Config`; a variable is a name and a value, and the list of
--     variables is the vector of the C code. robsd-config.c: Config/Program.
--     robsd-hook.c: Config/Hook, up to execvp(3).
--   * invocation.c: Invocation, and Invocation/Order on the order of its walk. robsd-ls.c:
--     Invocation/Program, whose loop is `walk_loop` of Invocation.
--
-- Lexer serves Step and Config; Interpolate expands templates over the variables of a configuration,
-- whose lookup passes the configuration on, since a default may define a variable. Step serves
-- RobsdStep and Report; Interpolate serves Step (a step is written by expanding a template) and
-- RobsdStep; Config serves RobsdStep and Invocation.
--
-- C strings and buffers are lists of bytes, vectors are lists, an int64 is an integer whose bounds
-- are stated where they matter. A result is `done`, `failed` for an error, or `out_of_fuel`. Loops
-- over input run on fuel: the lexer on one more than the bytes of the file, a value on one more than
-- the bytes left, the parser on one more than the tokens left, `interpolate_inner` on one more than
-- the length of its text, the parsers of a configuration on one more than the tokens left,
-- `walk_loop` on one more than the entries left. Each round takes something, so that the fuel is enough.
--
-- A search for a variable may search again for its default, three deep: the default of `builddir`
-- looks for `robsddir`, and a test's `parallel` for that of all tests. The field `stuck` says that
-- this was not enough, where the C code calls itself without end: what a configuration with `stuck`
-- holds says nothing of the C code. Config/State/Stuck shows when this does not happen.
--
-- Arguments that stand for code of libks or of the operating system: the order that VECTOR_SORT
-- makes (`sort`), the lines that buffer_getline yields (`lines`), the options of getopt, the overflow
-- checks (`Overflow`, with what they promise in `IsOverflow`), the entries of a directory (`readdir`) and
-- the lengths of paths and names (`path_max`, `name_max`), and what the machine says of itself, of paths,
-- users and patterns (`System`).
--
-- Not modelled: the selection of logs for a report, regress-html.c, the execution of
-- steps, statistics, locks, messages, memory, pledge and unveil, the
-- shell scripts, and libks, a copy of another library.
mod Base
mod Tests
pub mod Lexer
pub mod Interpolate
pub mod Strtonum
pub mod Mode
pub mod Step
pub mod RegressLog
pub mod RobsdStep
pub mod Report
pub mod Html
pub mod Config
pub mod Invocation
