-- ===== src/Endpoint.antt =====
-- The endpoints of the data plane: sarena-data-plane/src/endpoint.
pub mod Error
pub mod IdAllocator
pub mod Persist
pub mod Manager
pub mod Directory
pub mod Worker
pub mod Service
