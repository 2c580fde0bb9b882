-- ===== src/Chats.antt =====
-- Chats: the runs that answer them in the background.
pub mod Runs
