-- ===== src/Broker/Keeps.antt =====
-- Every operation of the broker keeps its invariant.
pub mod Dispatch
pub mod Results
pub mod Sweep
