-- ===== src/Inbox.antt =====
-- src/inbox: the conversations of an organisation.
pub mod Preview
pub mod Conversations
