-- ===== src/OrderCore.antt =====
-- order-core-service: it stores the orders, and decides what is assessed and what is notified.
pub mod Domain
pub mod Dto
pub mod Wire
pub mod Effects
pub mod Db
pub mod Ports
pub mod Ingest
pub mod Process
pub mod Consistency
pub mod Guard
pub mod Subscribers
pub mod Relay
pub mod Outbox
pub mod Requests
pub mod System
pub mod Concurrent
pub mod Settings
pub mod Topology
pub mod Migration
pub mod App
pub mod Tests
