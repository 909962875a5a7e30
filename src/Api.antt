-- ===== src/Api.antt =====
-- The custom resources of sdk/apis/operator/v1alpha1: the parts that the operator's own code reads.
-- A `metav1.Duration` is kept as the text that Go prints for it, a reference to a local object as
-- the name that it holds, and a field that is only passed through to Kubernetes as a text.
pub mod Pod
pub mod Certificates
pub mod Shard
pub mod Objects
pub mod Kubeconfig
