-- ===== src/Net/Server.antt =====
-- net/src/in_memory/memory_server.rs: the in-memory server that connects the nodes of a test. Its
-- state and effects, the connections of cells, the sends, and what it does with each message.
pub mod State
pub mod Cells
pub mod Sends
pub mod Entries
pub mod Metas
pub mod Lists
pub mod Serve
pub mod Extends
pub mod Frames
pub mod Monotone
pub mod Listings
pub mod Serves
pub mod Delivery
pub mod Membership
