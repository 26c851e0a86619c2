-- ===== src/Shared.antt =====
-- src/shared: what the host and the guest share.
pub mod PmCommands
pub mod Redact
pub mod VsockProtocol
