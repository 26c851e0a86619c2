-- ===== src/Guest.antt =====
-- src/guest: what the guest makes of the events before they leave the jail.
mod Pids
pub mod ProtectedPaths
pub mod RootAnchor
pub mod Attribution
pub mod StraceParser
