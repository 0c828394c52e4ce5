-- ===== src/Config.antt =====
-- src/config.rs: the arguments, the validated configuration and its builder, and the parity ratio.
pub mod ParityRatio
pub mod Types
pub mod FromArgs
pub mod Builder
pub mod CommandLine
