-- ===== src/Benchmarks.antt =====
-- The benchmarks of packages/benchmarking: what they write to a stream and read from it,
-- how they are configured and run, and what is reported of them.
pub mod Writers
pub mod Readers
pub mod Definitions
pub mod Stages
pub mod Summary
pub mod Pipeline
pub mod Runner
pub mod Programs
pub mod Streamer
pub mod LoadTest
pub mod Process
