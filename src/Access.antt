-- ===== src/Access.antt =====
-- Who acts, and what the policy lets them do.
pub mod Identity
pub mod Policy
pub mod Keys
pub mod Auth
pub mod Domain
pub mod AssetTokens
mod Tests
mod KeyTests
mod AssetTests
