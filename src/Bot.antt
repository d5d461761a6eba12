-- ===== src/Bot.antt =====
-- Bots: apps/server/internal/bot/biz/bot.go.
pub mod Operations
pub mod Validity
pub mod Examples
