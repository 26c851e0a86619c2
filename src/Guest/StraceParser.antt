-- ===== src/Guest/StraceParser.antt =====
-- src/guest/strace-parser.ts: what is read off a line of strace.
pub mod Strings
pub mod Argv
pub mod Syscalls
pub mod Calls
pub mod Lines
mod Tests
