-- ===== src/Strategies.antt =====
-- The discovery of strategies (src/china_a_share/discovery): the strategies and drafts of the chat's
-- users, where they are kept, and the scan that reports their matches.
pub mod Json
pub mod Models
pub mod Sorting
pub mod Store
pub mod RuleSpec
pub mod Acts
pub mod Desk
pub mod Interaction
pub mod Scanner
