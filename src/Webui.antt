-- ===== src/Webui.antt =====
-- internal/webui: what the web UI shows.
pub mod Node
pub mod Hub
pub mod Nodes
pub mod Labels
pub mod Protos
pub mod Chat
pub mod Packets
pub mod Status
pub mod Observer
pub mod Radio
pub mod Send
pub mod Http
pub mod Run
pub mod Replay
mod Tests
