-- ===== src/Voip.antt =====
-- src/features/voip: calls.
pub mod IceServer
pub mod Jingle
pub mod CallVm
