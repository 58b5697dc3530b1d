-- ===== src/Engine/Members.antt =====
-- Members: `lookup`, `enroll`, `getAccount`, `cancelMember`, `inspectMemberErasure`, `eraseMember`,
-- `setMemberMembership`, `scrubCachedMemberSnapshot`, `baseTierId` and `expiringBalances`.
mod Parts
mod Enroll
mod Account
pub mod Forgotten
unfoldable pub use Parts.*
unfoldable pub use Enroll.*
unfoldable pub use Account.*
