-- ===== src/UserKubeconfigs/Contexts.antt =====
-- The contexts of the kubeconfig of a user (internal/resources/kubeconfig/secret.go).
use kcp_operator.Prelude.{
  String, ◌≡◌, refl, subst, Option, Option-cases, none, some, ◌⊎◌, inl, inr, eq_refl,
}
use mathlib.Core.Option
use kcp_operator.Prelude.Maps.{lookup, insert}
use kcp_operator.Api.Kubeconfig.{Kubeconfig, get_target_workspace}
use kcp_operator.Names.Hosts.{get_root_shard_base_url, get_shard_base_url}
use kcp_operator.Render.Pods.{Outcome, done, panic}
use kcp_operator.Kubeconfigs.{Secret}
use kcp_operator.Bundles.{Bytes}
use kcp_operator.Bundles.Totality.{sum_cases}
use kcp_operator.UserKubeconfigs.{
  KubeconfigLibrary, EmbeddedAuthInfo, UserFile, Resolved, user_file, joined, shard_config,
  front_proxy_config, front_proxy_url, start_config, user_of,
}

-- The URL of the object that a Kubeconfig targets.
abbrev pub target_url : KubeconfigLibrary → Kubeconfig → Resolved → Option String
target_url K kc found = elim kc.spec.target.root_shard_ref [
  | some name ↦ Option.map get_root_shard_base_url found.root_shard
  | none ↦ elim kc.spec.target.shard_ref [
    | some name ↦ Option.map get_shard_base_url found.shard
    | none ↦ elim kc.spec.target.front_proxy_ref [
      | some name ↦ Option.map (front_proxy_url K found.front_proxy) found.root_shard
      | none ↦ none
    ]
  ]
]

-- A context leads to a server with this CA, and to this user.
abbrev pub Leads : UserFile → String → String → Bytes → EmbeddedAuthInfo → Type 0
Leads file context url ca_data user =
    (cluster_name : String) × (user_name : String) × (lookup context file.contexts
      ≡ some (record { cluster = cluster_name; auth_info = user_name }))
    × (lookup cluster_name file.clusters
        ≡ some (record { server = url; certificate_authority_data = ca_data }))
    × (lookup user_name file.auth_infos ≡ some user)

made_injective :
    {A B : Type 0} {x y : A} → ◌≡◌ {A = Outcome (A ⊎ B)} (done (inl x)) (done (inl y)) → x ≡ y
made_injective e = cc e

told-ne-made : {A B : Type 0} {a : A} {b : B} → done (inr b) ≡ done (inl a) → ⊥
told-ne-made e = cc e

panic-ne-made : {A : Type 0} {m : String} {a : A} → panic m ≡ done a → ⊥
panic-ne-made e = cc e

module _ (kc : Kubeconfig) (ca_data : Bytes) (cert_secret : Secret) where
  abbrev pub user : EmbeddedAuthInfo
  user = user_of cert_secret

  abbrev pub LeadsToBoth : String → String → UserFile → Type 0
  LeadsToBoth url default_url file =
      (file.current_context ≡ "default")
      × Leads file "base" url ca_data user
      × Leads file "default" default_url ca_data user

  abbrev start : UserFile
  start = start_config kc cert_secret

  shard_config-LeadsToBoth :
      (url default_url : String)
      → LeadsToBoth url default_url (shard_config kc.spec.username ca_data url default_url start)
  unfolding shard_config lookup insert
  shard_config-LeadsToBoth url default_url = (
    refl,
    ("base", kc.spec.username, refl, refl, rw eq_refl refl),
    ("default", kc.spec.username, refl, refl, rw eq_refl refl),
  )

  front_proxy_config-LeadsToBoth :
      (url default_url : String)
      → LeadsToBoth url default_url
          (front_proxy_config kc.spec.username ca_data url default_url start)
  unfolding front_proxy_config lookup insert
  front_proxy_config-LeadsToBoth url default_url = (
    refl,
    ("base", kc.spec.username, refl, refl, rw eq_refl refl),
    ("default", kc.spec.username, refl, refl, rw eq_refl refl),
  )

  module _ (K : KubeconfigLibrary) (found : Resolved) (file : UserFile) where
    -- Both contexts of a file lead to their servers: that of the target, and the workspace at it.
    abbrev pub LeadsToTarget : Type 0
    LeadsToTarget =
        (url : String) × (default_url : String) × (target_url K kc found ≡ some url)
        × (K.join_path url (K.request_path (get_target_workspace kc)) ≡ inl default_url)
        × LeadsToBoth url default_url file

    joined-LeadsToTarget :
        (url : String) (config : String → UserFile)
        → target_url K kc found ≡ some url
        → ((default_url : String) → LeadsToBoth url default_url (config default_url))
        → joined K kc url config ≡ done (inl file)
        → LeadsToTarget
    joined-LeadsToTarget url config t h e =
        elim (sum_cases (K.join_path url (K.request_path (get_target_workspace kc)))) [
          | inl (default_url, j) ↦
              let same : config default_url ≡ file = made_injective (rw (j, joined) at e) in
              (url, default_url, t, j, subst (LeadsToBoth url default_url) same (h default_url))
          | inr (m, j) ↦ elim (told-ne-made (rw (j, joined) at e)) [ ]
        ]

    abbrev shard_file : String → String → UserFile
    shard_file url d = shard_config kc.spec.username ca_data url d start

    abbrev front_proxy_file : String → String → UserFile
    front_proxy_file url d = front_proxy_config kc.spec.username ca_data url d start

    -- Let the switch over the target of a Kubeconfig give a file. Then its current context is the default
    -- one, the base context leads to the URL of the target, and the default context to that of the
    -- workspace of the Kubeconfig at it. Both have the merged CA and the certificate and key of the user.
    pub user_file-LeadsToTarget :
        user_file K kc found ca_data cert_secret ≡ done (inl file) → LeadsToTarget
    unfolding user_file
    user_file-LeadsToTarget e = elim (Option-cases kc.spec.target.root_shard_ref) [
      | inr (name, t1) ↦ elim (Option-cases found.root_shard) [
        | inl n ↦ elim (panic-ne-made (rw (t1, n, user_file) at e)) [ ]
        | inr (r, n) ↦
            let url = get_root_shard_base_url r in
            joined-LeadsToTarget url (shard_file url) (rw (t1, n) refl)
              (shard_config-LeadsToBoth url) (rw (t1, n, user_file) at e)
      ]
      | inl t1 ↦ elim (Option-cases kc.spec.target.shard_ref) [
        | inr (name, t2) ↦ elim (Option-cases found.shard) [
          | inl n ↦ elim (panic-ne-made (rw (t1, t2, n, user_file) at e)) [ ]
          | inr (s, n) ↦
              let url = get_shard_base_url s in
              joined-LeadsToTarget url (shard_file url) (rw (t1, t2, n) refl)
                (shard_config-LeadsToBoth url) (rw (t1, t2, n, user_file) at e)
        ]
        | inl t2 ↦ elim (Option-cases kc.spec.target.front_proxy_ref) [
          | inl t3 ↦ elim (panic-ne-made (rw (t1, t2, t3, user_file) at e)) [ ]
          | inr (name, t3) ↦ elim (Option-cases found.root_shard) [
            | inl n ↦ elim (panic-ne-made (rw (t1, t2, t3, n, user_file) at e)) [ ]
            | inr (r, n) ↦
                let url = front_proxy_url K found.front_proxy r in
                joined-LeadsToTarget url (front_proxy_file url) (rw (t1, t2, t3, n) refl)
                  (front_proxy_config-LeadsToBoth url) (rw (t1, t2, t3, n, user_file) at e)
          ]
        ]
      ]
    ]
