-- ===== src/Engine/Redemption.antt =====
-- Redemption: `reserve`, `capture` and `reverse`.
mod Parts
mod Reserve
mod Settle
unfoldable pub use Parts.*
unfoldable pub use Reserve.*
unfoldable pub use Settle.*
