-- ===== src/CompiledShard/SharedDefaults.antt =====
-- The package-level default resources of internal/resources/compiledshard are one pair of Go maps,
-- and every rendered container is given those maps themselves.
use kcp_operator.Api.Pod.{Deployment}
use kcp_operator.Api.Objects.{CompiledShard}
use kcp_operator.Render.Extension.{Resolves, volume_names}

-- A shard's own extra mounts name its own extra volumes.
abbrev pub ExtraMountsResolve : CompiledShard → Type 0
ExtraMountsResolve shard =
    Resolves (volume_names shard.spec.shard.extra_volumes) shard.spec.shard.extra_volume_mounts
