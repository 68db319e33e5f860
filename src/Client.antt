-- ===== src/Client.antt =====
-- client/: the ORPort client of stem, from the fields on the wire up to cells and relays.
pub mod Datatype
pub mod Cell
pub mod Relay
mod Tests
