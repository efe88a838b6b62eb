-- ===== src/Graph.antt =====
-- The identity graph of sovrin/persistence/identity_graph.py over an abstract OrientDB.
pub mod Db
pub mod Nyms
pub mod Attributes
pub mod Creds
pub mod Count
pub mod Schema
pub mod Registry
pub mod Replies
pub mod Memory
mod Tests
