-- ===== src/Control.antt =====
-- The control port: what is sent to tor, the messages that it replies with, and their lines.
pub mod Message
pub mod Socket
pub mod Send
pub mod Line
pub mod Reply
pub mod Event
pub mod Circuit
mod Tests
