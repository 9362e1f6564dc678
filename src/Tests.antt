-- ===== src/Tests.antt =====
-- Witnesses of the theorems at concrete inputs, for each part of the program.
pub mod Leases
pub mod Announcements
pub mod Samples
pub mod Endpoints
pub mod Demuxes
pub mod Descriptors
pub mod Clients
pub mod Adapters
pub mod Texts
pub mod Crds
pub mod Plugins
pub mod Factories
pub mod KubeClients
pub mod Scheduling
pub mod Schemes
pub mod Meshes
pub mod Controllers
