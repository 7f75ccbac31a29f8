-- ===== src/Shell.antt =====
-- The user shell's reading of a command line: the bytes are cut into tokens, and the tokens are
-- parsed into commands (crates/user/ov6_utilities/src/bin/sh/{tokenizer,parser,command}.rs).
pub mod Tokenizer
pub mod Utf8
pub mod Command
pub mod Parser
pub mod Words
pub mod Rounds
pub mod Passes
pub mod Spelling
pub mod CommandLine
pub mod Progress
pub mod Rules
pub mod Shape
pub mod Total
pub mod Print
pub mod Reads
pub mod RoundTrip
pub mod Operand
pub mod Quoting
pub mod Line
mod Tests
