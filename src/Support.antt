-- ===== src/Support.antt =====
-- What the packages share beside messages: the environment and its defaults, the configuration of a pair
-- of streams, and errors.
pub mod Environment
pub mod Errors
pub mod Configuration
