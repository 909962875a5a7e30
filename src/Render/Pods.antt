-- ===== src/Render/Pods.antt =====
-- How the functions of internal/resources/utils change the pod of a Deployment. A write to
-- `Containers[0]` of a pod without containers is a Go panic.
use kcp_operator.Prelude.{
  String, ◌<>◌, Bool, true, false, Option, none, some, List, [], ◌∷◌, ◌++◌, ◌==◌, if◌then◌else◌,
}
use kcp_operator.Prelude.Decimal.{ℤ, is_zero, print_int}
use kcp_operator.Api.Pod.{Volume, VolumeMount, Container, PodSpec, Deployment, secret}

pub data Outcome {ℓ} (A : Type ℓ) : Type ℓ where
  panic : String → Outcome A
  done : A → Outcome A

infixl 5 ◌>>=◌
abbrev pub ◌>>=◌ {ℓ κ} : {A : Type ℓ} {B : Type κ} → Outcome A → (A → Outcome B) → Outcome B
done a >>= f = f a
panic m >>= f = panic m

abbrev out_of_range : String
out_of_range = "index out of range"

-- `podSpec.Containers[0] = f(podSpec.Containers[0])`
abbrev pub on_first : (Container → Container) → PodSpec → Outcome PodSpec
on_first f pod = elim pod.containers [
  | [] ↦ panic out_of_range
  | c ∷ cs ↦ done (record pod { containers = f c ∷ cs })
]

-- `podSpec.Containers[0].Args = append(podSpec.Containers[0].Args, extra...)`
abbrev pub append_args : List String → PodSpec → Outcome PodSpec
append_args extra = on_first (λ c. record c { args = c.args ++ extra })

abbrev pub append_mounts : List VolumeMount → PodSpec → Outcome PodSpec
append_mounts extra = on_first (λ c. record c { volume_mounts = c.volume_mounts ++ extra })

abbrev pub append_volumes : List Volume → PodSpec → PodSpec
append_volumes extra pod = record pod { volumes = pod.volumes ++ extra }

-- `podSpec := deployment.Spec.Template.Spec; ...; deployment.Spec.Template.Spec = podSpec`
abbrev pub with_pod : (PodSpec → Outcome PodSpec) → Deployment → Outcome Deployment
with_pod f dep = f dep.spec.template.spec >>= λ pod.
    done
      (record dep { spec = record dep.spec { template = record dep.spec.template { spec = pod } } })

-- `if val := ...; val != "" { extraArgs = append(extraArgs, fmt.Sprintf(flag+"%s", val)) }`
abbrev pub flag_text : String → String → List String
flag_text flag val = if val == "" then [] else (flag <> val) ∷ []

abbrev pub flag_int : String → ℤ → List String
flag_int flag val = if is_zero val then [] else (flag <> print_int val) ∷ []

abbrev pub flag_bool : String → Bool → List String
flag_bool flag val = if val then flag ∷ [] else []

abbrev pub flag_option : String → Option String → List String
flag_option flag none = []
flag_option flag (some val) = (flag <> val) ∷ []

-- A volume that holds a Secret.
abbrev pub secret_volume : String → String → Volume
secret_volume volume_name secret_name = record { name = volume_name; source = secret secret_name }

abbrev pub read_only_mount : String → String → VolumeMount
read_only_mount volume_name mount_path = record {
  name = volume_name;
  read_only = true;
  mount_path = mount_path;
}

-- strings.Join
unfoldable pub join : List String → String → String
join [] sep = ""
join (x ∷ []) sep = x
join (x ∷ y ∷ rest) sep = x <> sep <> join (y ∷ rest) sep

-- `if val := config.ConfigSecretName; val != "" { ... }`: the Secret is mounted, and a flag names the
-- kubeconfig in it. The test on the name comes as the first argument.
abbrev pub config_secret_if : Bool → String → String → String → PodSpec → Outcome PodSpec
config_secret_if true val volume_name mount_path pod = done pod
config_secret_if false val volume_name mount_path pod = do
  pod1 ← append_mounts (read_only_mount volume_name mount_path ∷ []) pod
  done (append_volumes (secret_volume volume_name val ∷ []) pod1)

abbrev pub config_secret_arg_if : Bool → String → String → List String
config_secret_arg_if true flag mount_path = []
config_secret_arg_if false flag mount_path = (flag <> mount_path <> "/kubeconfig") ∷ []

-- Such a block, and the arguments of the same option before its flag.
abbrev pub with_config_secret :
    List String → String → String → String → String → PodSpec → Outcome PodSpec
with_config_secret args val volume_name mount_path flag pod = do
  pod1 ← config_secret_if (val == "") val volume_name mount_path pod
  append_args (args ++ config_secret_arg_if (val == "") flag mount_path) pod1
