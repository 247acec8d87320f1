-- ===== src/Oci.antt =====
-- OCI registries: crates/akua-core/src/oci_transport.rs and oci_auth.rs.
pub mod Reference
pub mod Transport
pub mod Requests
pub mod Store
pub mod Editing
pub mod Listing
mod Tests
mod StoreTests
