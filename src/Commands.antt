-- ===== src/Commands.antt =====
-- system/libs/tk_command_parsing/src/tk_command_parsing/parser.py: what a shell command line asks of
-- the `tk` tool. `Newlines` prepares the text for the lexer, `Segments` splits the lexer's tokens
-- into commands, and `Idempotent` and `Tokens` hold what is proved of them.
pub mod Newlines
pub mod Segments
pub mod Idempotent
pub mod Separated
pub mod Tokens
