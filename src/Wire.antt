-- ===== src/Wire.antt =====
-- What one process writes the other reads: the lines that the actors of the four processes send,
-- read by the connections at the other end.
pub mod ToServer
pub mod ToPassenger
pub mod ToDriver
pub mod ToReplica
pub mod Payment
pub mod Conversation
pub mod Connections
pub mod Stream
pub mod Joining
pub mod Service
pub mod Reports
pub mod Paying
mod Examples
