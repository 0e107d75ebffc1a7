-- ===== src/Graph.antt =====
-- src/agent-runtime/graph: the correction loop of the verify node.
pub mod Convergence
pub mod Loops
mod Examples
