-- ===== src/Util.antt =====
-- util/: text and address helpers of stem.
pub mod Decimal
pub mod Hex
pub mod TorTools
pub mod Connection
