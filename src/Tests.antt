-- ===== src/Tests.antt =====
-- The theorems at concrete inputs: a connection that is open, a small server, and a codec of texts.
mod Fixtures
mod Keys
mod Streams
mod Deferrals
mod Consumers
mod Caches
mod States
mod Gateways
mod Support
mod Benchmarks
mod Examples
mod Reports
