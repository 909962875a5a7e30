-- ===== src/Tests.antt =====
-- Tests of the models on concrete objects, and the theorems at concrete inputs.
mod Samples
mod Rendering
mod Rbac
mod Naming
mod Children
mod Status
mod Revisions
mod Pem
mod Controllers
mod VirtualWorkspaces
mod UserKubeconfigs
