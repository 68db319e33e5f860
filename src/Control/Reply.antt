-- ===== src/Control/Reply.antt =====
-- The replies of response/*.py: what `convert` makes of a control message.
pub mod GetInfo
pub mod GetConf
pub mod MapAddress
pub mod AddOnion
pub mod SingleLine
pub mod AuthChallenge
pub mod ProtocolInfo
pub mod OnionClientAuth
mod Tests
