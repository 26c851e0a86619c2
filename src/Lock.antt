-- ===== src/Lock.antt =====
-- src/lock: the event schema, path tokens, and the normalisation of events into lock blocks.
pub mod Schema
pub mod Tokenize
pub mod PrivateRealpath
pub mod Normalize
pub mod Render
