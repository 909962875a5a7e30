-- ===== src/Render.antt =====
-- Rendering the pods of kcp components.
pub mod Pods
pub mod Audit
pub mod Authorization
pub mod Authentication
pub mod Mounts
pub mod Resources
pub mod Templates
pub mod ShardPod
pub mod Extension
pub mod Options
pub mod Laws
