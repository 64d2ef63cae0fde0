-- ===== src/Net.antt =====
-- The network: the messages between a node and its network module, and the in-memory server that
-- stands for the network in scenario tests (net/src).
pub mod Protocol
pub mod Book
pub mod Server
