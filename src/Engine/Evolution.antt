-- ===== src/Engine/Evolution.antt =====
-- How the engine's methods may change its state: what a well-formed state is, which moves a
-- reservation may make, and the preorder that every method follows.
pub mod Order
pub mod Writes
pub mod Lots
pub mod Methods
pub mod Operations
pub mod Listings
pub mod Postings
pub mod Settled
pub mod Guarded
pub mod Redemptions
pub mod Enrolment
unfoldable pub use Order.*
