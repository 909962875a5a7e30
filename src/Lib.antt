-- ===== src/Lib.antt =====
-- A model of the kcp operator, which runs kcp control planes on Kubernetes: it turns the objects that a
-- user writes (RootShard, Shard, FrontProxy, CacheServer, VirtualWorkspace, Kubeconfig) into
-- certificates, Secrets, Services and Deployments.
--
-- How the parts work together. A config controller (pkg/controller/shard and its siblings) creates the
-- certificates and Secrets of an object and publishes a compiled object, which holds the spec of the
-- object and of everything that it refers to (internal/resources/shard/compiled.go and its siblings).
-- A workload controller (pkg/controller/compiledshard and its siblings) renders the Deployment from the
-- compiled object alone, and finds certificates and Secrets by names that it computes. The RBAC
-- controller (pkg/controller/kubeconfig-rbac) grants the roles of a Kubeconfig in a kcp workspace.
--
-- The files:
--   Prelude          names of the libraries, Boolean tests, Go maps as association lists, decimals.
--   Api              the types of sdk/apis/operator/v1alpha1 and sdk/apis/deploy/v1alpha1, with the
--                    fields that the modelled code reads, and the parts of a Deployment.
--   Names            internal/resources/resources.go: every name, label, host and URL; Names.Distinct
--                    says which names two objects can share.
--   Compile          the compiled objects; Compile.Agreement compares the names of both controllers.
--   Render           internal/resources/utils: the options of a Deployment. A function of the code
--                    that mutates a Deployment is a function to an Outcome, which is a Deployment or a
--                    panic (an index into the containers that is out of range). Render.Extension says
--                    what an option may add. Render.Resources has the heap: a container holds
--                    addresses of Go maps, because the code gives every container the maps of one
--                    package variable.
--   CompiledShard    internal/resources/compiledshard/deployment.go: getArgs and the Deployment.
--   Rbac             pkg/controller/kubeconfig-rbac/controller.go and internal/resources/kubeconfig/
--                    rbac.go. Rbac.Server is the API that the controller calls, as a parameter: a
--                    request that succeeds has its effect, one that fails may have had it or not.
--                    Rbac.Controller has one function per method, Rbac.Memory a server in memory.
--   Revisions        pkg/reconciling/modifier/revision_labels.go: the labels that restart pods when a
--                    mounted Secret or ConfigMap changes. The hash and the client are parameters.
--                    Revisions.Uses says what a pod uses, apart from the loops that collect it.
--   Status           the conditions of pkg/controller/util/util.go and the phases that reconcileStatus of
--                    the shard, root shard and front-proxy controllers sets. Status.PhaseRules has the
--                    rules of the phases. Status.ConditionLibrary is
--                    the API machinery's part, Status.Listing fills it.
--   Children         FetchRootShard and GetRootShardChildren of the same file.
--   Certificates     the reconcilers of certificates and issuers (certificates.go, ca_certificates.go and
--                    issuers.go of internal/resources/shard and its siblings) and the templates of the
--                    user in internal/resources/utils/certificates.go. CertificateLibrary is what they
--                    call of libraries. Certificates.Secrets has the Secrets that they lead to.
--   Kubeconfigs      the kubeconfig files of kubeconfigs.go of internal/resources/shard and its siblings.
--                    Kubeconfigs.Files compares them with what a Deployment mounts.
--   Bundles          merging and validating certificates (internal/resources/utils/certificates.go), and
--                    the bundles of ca_bundle.go. PemLibrary is encoding/pem and crypto/x509 as a
--                    parameter; its laws are about certificates, and Tests.Pem fills them. Bundles.Owners
--                    has the bundles of shards, root shards and virtual workspaces.
--   Controllers      reconcile of pkg/controller/shard, rootshard, frontproxy, cacheserver and
--                    virtualworkspace, and internal/resources/frontproxy/reconciler.go. A
--                    reconciliation is a Run: the requests in their order, the conditions and the errors.
--                    Controllers.Cluster is what the cluster answers. Controllers.Made and
--                    Controllers.Mounted compare the Secrets that three runs ask for with those that
--                    the Deployment of a shard mounts. A loop over certificates or issuers asks for
--                    those that it comes to before an error.
--   UserKubeconfigs  internal/resources/kubeconfig/secret.go and certificate.go, and
--                    pkg/controller/kubeconfig/controller.go: the kubeconfig of a user.
--                    KubeconfigLibrary is what they call of libraries.
--   Tests            concrete objects and runs.
--
-- Conventions. Strings are native texts. A pointer or an optional field is an Option, a reference to
-- an object of the same namespace its name, a resource quantity or a duration its text. Loops are
-- structural recursion on the list that they range over. The one loop that is not is that of
-- Bundles.validate_blocks, which has the length of the text and one more as fuel: a decoded block is
-- not empty. The RBAC controller is given the state of the cluster and passes it on; a read sees what
-- is stored, so a stale cache is not modelled. The other controllers are given the answers of the
-- cluster to the requests of one reconciliation.
--
-- Not modelled: the generated clients and deep copies of sdk/, start-up and flags in cmd/operator, the
-- tests and tools, the network clients in pkg/client, owner references, metrics, and the controllers
-- and renderers that no file above names: the controllers of the compiled objects, and the Deployments
-- of compiled root shards, front-proxies, cache servers and virtual workspaces.
pub mod Prelude
pub mod Api
pub mod Names
pub mod Compile
pub mod Render
pub mod Certificates
pub mod Kubeconfigs
pub mod Bundles
pub mod Controllers
pub mod UserKubeconfigs
pub mod CompiledShard
pub mod Rbac
pub mod Revisions
pub mod Status
pub mod Children
pub mod Tests
