-- ===== src/Broker.antt =====
-- Symbols, instruments and the choice of a broker: app/broker.
pub mod Crypto
pub mod Resolver
pub mod Router
pub mod RateLimit
pub mod Tests
