-- ===== src/Providers.antt =====
-- Providers of configuration trees: what they share, and the environment and .env files.
mod Tests
pub mod Shared
pub mod Delays
pub mod Env
pub mod Keys
pub mod Dotenv
pub mod Escapes
pub mod Variables
pub mod Quoted
