-- ===== src/Rbac.antt =====
-- The RBAC controller of kubeconfigs, pkg/controller/kubeconfig-rbac.
pub mod Server
pub mod Controller
pub mod Ends
pub mod Views
pub mod Loops
pub mod Ensures
pub mod Safety
pub mod Matches
pub mod Reconcile
pub mod Aborts
pub mod Aborting
pub mod Panics
pub mod Progress
pub mod Provisioning
pub mod Memory
