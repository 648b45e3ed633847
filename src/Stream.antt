-- ===== src/Stream.antt =====
-- aether/safe_stream: the reliable byte stream over an unreliable packet link.
pub mod Message
pub mod Positions
pub mod Sender
pub mod Receiver
pub mod Safe
