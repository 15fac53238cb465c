-- ===== src/Chat.antt =====
-- src/features/chat: messages, the list that shows them, and sending.
pub mod Entity
pub mod MessageList
pub mod SendMessage
pub mod Wire
pub mod HistoryCache
pub mod Repository
mod Examples
