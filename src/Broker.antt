-- ===== src/Broker.antt =====
-- internal/broker: one radio on a serial line, shared by TCP clients.
pub mod Cache
pub mod Client
pub mod State
pub mod Pending
pub mod Outbound
pub mod Delivery
pub mod Serial
pub mod Handle
pub mod Canned
pub mod Radio
pub mod Chat
pub mod Debug
pub mod Run
mod Tests
