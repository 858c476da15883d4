-- ===== src/Risk.antt =====
-- The risk gates of app/risk.
pub mod Settings
pub mod Sectors
pub mod Rules
pub mod Heat
pub mod Shorting
pub mod Context
pub mod Guardrails
pub mod Sizing
pub mod Allocation
