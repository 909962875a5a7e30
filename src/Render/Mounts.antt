-- ===== src/Render/Mounts.antt =====
-- SecretMount of internal/resources/utils/secrets.go.
use kcp_operator.Prelude.{String}
use kcp_operator.Api.Pod.{Volume, VolumeMount}
use kcp_operator.Render.Pods.{secret_volume, read_only_mount}

pub record SecretMount : Type 0 where
  pub volume_name : String
  pub secret_name : String
  pub mount_path : String

abbrev pub build_volume : SecretMount → Volume
build_volume sm = secret_volume sm.volume_name sm.secret_name

abbrev pub build_mount : SecretMount → VolumeMount
build_mount sm = read_only_mount sm.volume_name sm.mount_path

abbrev pub secret_mount : String → String → String → SecretMount
secret_mount volume_name secret_name mount_path = record {
  volume_name = volume_name;
  secret_name = secret_name;
  mount_path = mount_path;
}
