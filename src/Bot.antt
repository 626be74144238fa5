-- ===== src/Bot.antt =====
-- The chat bot, src/bot of the repository.
pub mod Auth
pub mod Commands
pub mod Executor
pub mod Responses
