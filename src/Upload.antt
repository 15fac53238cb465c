-- ===== src/Upload.antt =====
-- src/features/chat/domain: cancellation of an attachment send.
pub mod Cancellation
pub mod FlagFutures
mod Examples
