-- ===== src/World.antt =====
-- The state that a request acts on, and the shape of the code that acts on it.
pub mod Platform
pub mod State
pub mod Action
pub mod Logic
pub mod Runs
