-- ===== src/Tests/Rbac.antt =====
-- Runs of the RBAC controller against a server in memory.
use kcp_operator.Prelude.{
  inl, String, ◌≡◌, ◌≢◌, refl, sym, ◌∙◌, arith, eq_iff, contains, ◌&&◌, Bool, true, false, Option,
  none, some, List, [], ◌∷◌,
}
use kcp_operator.Api.Kubeconfig.{get_rbac_target_workspace, Kubeconfig, ClusterRoleBinding}
use kcp_operator.Rbac.Controller.{
  desired_roles, cleanup_finalizer, reconcile, finished, reconcile_bindings, handle_deletion,
  wanted,
}
use kcp_operator.Rbac.Ends.{world, Ends}
use kcp_operator.Rbac.Views.{HasNone, IsAccounted}
use kcp_operator.Rbac.Memory.{
  reliable_server, reliable_server-IsLawful, reliable_server-Answers, Memory, Cell, find, lose,
  memory_view, memory_server, memory_server-IsLawful,
}
use kcp_operator.Rbac.Safety.{Released, Accounted, handle_deletion-Released}
use kcp_operator.Rbac.Matches.{Matches, Provisions, Stays, reconcile_bindings-Matches}
use kcp_operator.Rbac.Progress.{IsSame, Asks, after}
use kcp_operator.Rbac.Provisioning.{provisioning_completes}
use kcp_operator.Rbac.Panics.{deletion_completes, panics, reconcile-panics, first_deletion_panics}
use kcp_operator.Rbac.Reconcile.{reconcile-IsAccounted}

abbrev kubeconfig : Bool → List String → Option String → Kubeconfig
kubeconfig deleting finalizers cluster = record {
  name = "admin";
  uid = "1234";
  labels = [];
  deleting = deleting;
  finalizers = finalizers;
  spec = record {
    target = record { root_shard_ref = some "root"; shard_ref = none; front_proxy_ref = none };
    username = "admin";
    groups = [];
    validity = "8760h0m0s";
    secret_ref = "admin-kubeconfig";
    certificate_template = none;
    target_workspace = "root:org";
    authorization = some (record {
      cluster_role_bindings = record { cluster = ""; cluster_roles = "view" ∷ "edit" ∷ [] };
    });
  };
  status = record {
    authorization = elim cluster [
      | none ↦ none
      | some c ↦ some (record { provisioned_cluster = c })
    ];
  };
}

abbrev binding : ClusterRoleBinding
binding = record {
  labels = ("operator.kcp.io/kubeconfig", "1234") ∷ [];
  role_ref = record {
    api_group = "rbac.authorization.k8s.io";
    kind = "ClusterRole";
    name = "admin";
  };
  subjects = [];
}

-- Another workspace is provisioned, with one binding in it, and the first deletion is lost.
abbrev moved : Memory
moved = record {
  kubeconfig = kubeconfig false (cleanup_finalizer ∷ []) (some "root:old");
  cells = record { workspace = "root:old"; name = "1234:admin"; binding = binding } ∷ [];
  script = lose ∷ [];
}

only_cell :
    (c : Cell) (ws n : String) (b : ClusterRoleBinding)
    → find (c ∷ []) ws n ≡ some b
    → ws ≡ c.workspace
only_cell c ws n b e = ground (arith, e, eq_iff ws c.workspace)

moved-IsAccounted : IsAccounted (memory_view moved)
unfolding contains
moved-IsAccounted ws n b o =
    let here =
      only_cell (record { workspace = "root:old"; name = "1234:admin"; binding = binding }) ws n b
        o.0 in
    (λ e. cc (sym here ∙ e), sym here, refl)

reconcile-IsAccounted_example :
    IsAccounted (memory_view (world (reconcile memory_server (memory_view moved).kubeconfig moved)))
reconcile-IsAccounted_example =
    reconcile-IsAccounted memory_server memory_server-IsLawful moved moved-IsAccounted

-- A kubeconfig that has been provisioned, with a binding that is not configured any more.
abbrev stale : Memory
stale = record {
  kubeconfig = kubeconfig false (cleanup_finalizer ∷ []) (some "root:org");
  cells = record { workspace = "root:org"; name = "1234:admin"; binding = binding } ∷ [];
  script = [];
}

reconcile_bindings-Matches_example :
    Ends
      (Provisions memory_server memory_server-IsLawful (memory_view stale).kubeconfig stale)
      (Stays memory_server memory_server-IsLawful (memory_view stale).kubeconfig stale)
      (reconcile_bindings memory_server (memory_view stale).kubeconfig stale)
reconcile_bindings-Matches_example =
    reconcile_bindings-Matches memory_server memory_server-IsLawful (memory_view stale).kubeconfig
      stale

-- A deletion while the binding is still there.
abbrev deleted : Memory
deleted = record stale { kubeconfig = kubeconfig true (cleanup_finalizer ∷ []) (some "root:org") }

deleted-IsAccounted : IsAccounted (memory_view deleted)
unfolding contains
deleted-IsAccounted ws n b o =
    let here =
      only_cell (record { workspace = "root:org"; name = "1234:admin"; binding = binding }) ws n b
        o.0 in
    (λ e. cc (sym here ∙ e), sym here, refl)

handle_deletion-Released_example :
    Ends
      (Released memory_server memory_server-IsLawful)
      (Accounted memory_server memory_server-IsLawful)
      (handle_deletion memory_server (memory_view deleted).kubeconfig deleted)
handle_deletion-Released_example =
    handle_deletion-Released memory_server memory_server-IsLawful deleted deleted-IsAccounted

reconcile-panics_example :
    panics (reconcile memory_server (kubeconfig true (cleanup_finalizer ∷ []) none) stale)
    ≡ (true && contains (cleanup_finalizer ∷ []) cleanup_finalizer && true)
reconcile-panics_example =
    reconcile-panics memory_server (kubeconfig true (cleanup_finalizer ∷ []) none) stale

abbrev fresh : Memory
fresh = record { kubeconfig = kubeconfig false [] none; cells = []; script = [] }

no_finalizer : contains [] cleanup_finalizer ≡ false
unfolding contains
no_finalizer = refl

target : wanted (kubeconfig false [] none) ≢ ""
unfolding get_rbac_target_workspace
target e = cc e

first_deletion_panics_example :
    (kc1 : Kubeconfig) × (w1 : Memory) × (reconcile memory_server (kubeconfig false [] none) fresh
      ≡ finished true kc1 w1)
    × ((w2 : Memory) → panics (reconcile memory_server (record kc1 { deleting = true }) w2) ≡ true)
first_deletion_panics_example =
    first_deletion_panics memory_server memory_server-IsLawful fresh refl refl target no_finalizer
      refl

deletion_completes_example :
    (u : Bool) × (kc1 : Kubeconfig) × (w1 : Memory) × (reconcile reliable_server
        (memory_view deleted).kubeconfig
        deleted
      ≡ finished u kc1 w1)
    × HasNone (memory_view w1)
    × (contains w1.kubeconfig.finalizers cleanup_finalizer ≡ false)
deletion_completes_example =
    deletion_completes reliable_server reliable_server-IsLawful deleted
      (record { provisioned_cluster = "root:org" }) reliable_server-Answers deleted-IsAccounted refl
      refl

fresh_Asks : Asks (kubeconfig false [] none)
unfolding get_rbac_target_workspace
fresh_Asks = (refl, (λ e. cc e), inl refl)

provisioning_completes_example :
    let w2 = after reliable_server (after reliable_server fresh) in
    let k = w2.kubeconfig in
    IsSame k (kubeconfig false [] none)
    × ((u : Bool) × (k3 : Kubeconfig) × (w3 : Memory) × (reconcile reliable_server k w2
          ≡ finished u k3 w3)
        × Matches
            (desired_roles k.spec.authorization)
            (get_rbac_target_workspace k)
            k
            (memory_view w3))
provisioning_completes_example =
    provisioning_completes reliable_server reliable_server-IsLawful reliable_server-Answers fresh
      fresh_Asks
