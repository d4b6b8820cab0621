-- ===== src/Util.antt =====
-- pkg/util: helpers that the controllers share.
pub mod Formats
pub mod Labels
pub mod Hash
pub mod Calculations
pub mod Workers
