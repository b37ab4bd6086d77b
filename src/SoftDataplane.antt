-- ===== src/SoftDataplane.antt =====
-- sarena-data-plane/src/soft_dataplane.rs and models.rs: the user-space data plane.
pub mod Bytes
pub mod Packet
pub mod Models
pub mod Tables
pub mod Routing
pub mod Forward
mod Tests
mod NatTests
