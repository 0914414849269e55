-- ===== src/Vix.antt =====
-- The VIX alert subsystem (src/china_a_share/vix).
pub mod Rules
pub mod Source
pub mod Claims
pub mod Positions
pub mod History
pub mod Scanner
pub mod Commands
