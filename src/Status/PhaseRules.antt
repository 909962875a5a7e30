-- ===== src/Status/PhaseRules.antt =====
-- Which phase follows from which facts: what the phase switches in reconcileStatus of pkg/controller/shard,
-- rootshard and frontproxy are for, as rules.
use kcp_operator.Prelude.{String, ◌≡◌, inl, inr, Bool, true, false, Bool-cases, ◌==◌, eq_iff}
use kcp_operator.Status.Phases.{shard_phase, proxy_phase}

-- The phase of a shard that is available or not and being deleted or not, after the phase it had.
pub data ShardPhase : Bool → Bool → String → String → Type 0 where
  shard_runs : {deleting : Bool} {old : String} → ShardPhase true deleting old "Running"
  shard_deleted : {old : String} → ShardPhase false true old "Deleting"
  shard_new : ShardPhase false false "" "Provisioning"
  shard_kept : {old : String} → (old ≡ "" → ⊥) → ShardPhase false false old old

-- The same of a root shard or front-proxy, which has no memory.
pub data ProxyPhase : Bool → Bool → String → Type 0 where
  proxy_deleted : {available : Bool} → ProxyPhase available true "Deleting"
  proxy_runs : ProxyPhase true false "Running"
  proxy_new : ProxyPhase false false "Provisioning"

pub shard_phase-ShardPhase :
    (available deleting : Bool) (old : String)
    → ShardPhase available deleting old (shard_phase available deleting old)
shard_phase-ShardPhase true deleting old = shard_runs
shard_phase-ShardPhase false true old = shard_deleted
shard_phase-ShardPhase false false old = elim (Bool-cases (old == "")) [
  | inl e ↦ rw ((eq_iff old "").0 e) shard_new
  | inr n ↦ rw n (shard_kept (λ e. cc (n, (eq_iff old "").1 e)))
]

pub proxy_phase-ProxyPhase :
    (available deleting : Bool) → ProxyPhase available deleting (proxy_phase available deleting)
proxy_phase-ProxyPhase available true = proxy_deleted
proxy_phase-ProxyPhase true false = proxy_runs
proxy_phase-ProxyPhase false false = proxy_new
