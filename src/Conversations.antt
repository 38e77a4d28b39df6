-- ===== src/Conversations.antt =====
-- app/conversations: the facts that a conversation keeps.
pub mod ContextPolicy
