-- ===== src/Client/Datatype.antt =====
-- client/datatype.py: the fields that cells are made of.
pub mod Size
pub mod Enums
pub mod Field
pub mod Framing
pub mod Packed
pub mod Address
pub mod Certificate
pub mod LinkSpecifier
pub mod Kdf
pub mod LinkProtocol
mod Tests
