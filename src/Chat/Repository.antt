-- ===== src/Chat/Repository.antt =====
-- src/features/chat/data/repository: the message repository and its cache.
pub mod Queue
pub mod Uploads
