-- ===== src/Dag.antt =====
-- apps/api/app/runtime/dag_runtime.py: the root-cause walk over the approved causal edges.
pub mod Graph
pub mod Fingerprint
pub mod Walk
pub mod Trace
