-- ===== src/Crd.antt =====
-- plugins/crdplugin: the CRD of CNF configurations.
pub mod DeepCopy
pub mod Handler
pub mod Controller
pub mod Plugin
pub mod Client
pub mod Scheme
