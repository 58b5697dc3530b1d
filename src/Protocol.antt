-- ===== src/Protocol.antt =====
-- The data of the wire protocol: packages/protocol/src.
pub mod Primitives
pub mod Order
pub mod Loyalty
pub mod Messages
pub mod Validation
pub mod Program
