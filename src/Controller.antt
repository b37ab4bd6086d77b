-- ===== src/Controller.antt =====
-- The periodic controllers of the data plane: sarena-data-plane/src/controller.
pub mod Backoff
pub mod Spec
pub mod Status
pub mod Runner
pub mod Manager
mod Tests
