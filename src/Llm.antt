-- ===== src/Llm.antt =====
-- llm, the service that assesses the orders (llm/app).
pub mod Domain
pub mod Listing
pub mod Notification
pub mod Wire
pub mod Mapping
pub mod Prompts
pub mod Assess
pub mod Subscriber
pub mod Profile
pub mod Topology
pub mod App
pub mod Settings
pub mod Tests
