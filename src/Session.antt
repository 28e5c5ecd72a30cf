-- ===== src/Session.antt =====
-- src/server/session_manager.hpp and src/server/session_manager.cpp: the session store.
pub mod Trim
pub mod Store
pub mod Conversation
