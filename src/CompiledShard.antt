-- ===== src/CompiledShard.antt =====
-- internal/resources/compiledshard: the Deployment of a shard, rendered from its CompiledShard.
pub mod Paths
pub mod Args
pub mod Deployment
pub mod Laws
pub mod SharedDefaults
