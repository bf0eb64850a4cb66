-- ===== src/Gateway.antt =====
-- The gateways, which turn requests from outside into stream messages.
pub mod Fastify
pub mod Service
pub mod Sockets
