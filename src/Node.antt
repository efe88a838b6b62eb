-- ===== src/Node.antt =====
-- sovrin/server/node.py: the checks of a request, its authorization, the execution of an ordered
-- request on the ledger and the identity graph, and the replies to queries.
pub mod Env
pub mod Checks
pub mod Execution
pub mod Queries
pub mod Startup
pub mod Storage
pub mod Samples
mod Tests
