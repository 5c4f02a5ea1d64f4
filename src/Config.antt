-- ===== src/Config.antt =====
-- The configuration of a build: conf.c, conf-token.c, variable-value.c, and the grammars and steps of
-- each mode, conf-robsd.c, conf-robsd-cross.c, conf-robsd-ports.c, conf-robsd-regress.c and
-- conf-canvas.c.
--
--   * Config/Value: variable-value.c. Config/Token: conf-token.c. Config/Lex: the lexer's callback.
--   * Config/Grammar: the tables. Config/State: the variables, with their defaults and lookup.
--   * Config/Parse: the parsers of values that all modes share; Config/Regress and Config/Canvas,
--     those of one mode; Config/File: the loop over a file, and the initialization for a mode.
--   * Config/Steps: the steps of a mode. Config/Program: robsd-config.c. Config/Hook:
--     robsd-hook.c.
pub mod Value
pub mod Token
pub mod Lex
pub mod Grammar
pub mod State
pub mod Parse
pub mod Regress
pub mod Canvas
pub mod File
pub mod Steps
pub mod Program
pub mod Hook
