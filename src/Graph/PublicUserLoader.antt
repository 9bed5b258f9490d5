-- ===== src/Graph/PublicUserLoader.antt =====
-- The loader of public users (internal/graph/dataloader): its state and operations in State, the
-- steps of a server that uses it in System, and what holds of every run.
pub mod State
pub mod System
pub mod Phases
pub mod Soundness
pub mod Runs
pub mod Growth
pub mod Answers
pub mod Invariant
pub mod Service
pub mod Termination
