-- ===== src/Ipam.antt =====
-- The IP address management of the services: sarena-services/src/ipam.
pub mod Error
pub mod Bitmap
pub mod HostScope
pub mod Service
