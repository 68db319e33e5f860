-- ===== src/Client/Cell.antt =====
-- client/cell.py: the cells of the ORPort protocol.
pub mod Types
pub mod Frame
pub mod RelayCell
pub mod Payload
pub mod Wire
