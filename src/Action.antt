-- ===== src/Action.antt =====
-- src/action: what the action makes of the lock that an audit has produced.
pub mod Value
pub mod Diff
pub mod Select
