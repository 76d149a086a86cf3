-- ===== src/Actor/Api/Forwarding.antt =====
-- A call reaches the supervisor of the flow's shard, on the node that serves the flow.
use completer.Prelude.{
  ℕ, ◌<◌, ◌≡◌, refl, String, List, [], ◌∷◌, Option, none, some, ◌==◌, if◌then◌else◌, arith,
}
use completer.Model.Command.{graph_not_found}
use completer.Sharding.{Uuid, shard_id, shard_id-lt}
use completer.Cluster.{Settings, local_shards, resolve_node}
use completer.Cluster.Ownership.{member, member-local_shards}
use completer.Actor.Api.{
  supervisor_name, shard_supervisors, supervisor_of, err, flow_error, FutureResult,
  lookup_supervisor, future_result, forward_request,
}

pub supervisor_of-shard_supervisors :
    (shard : ℕ) (shards : List ℕ)
    → supervisor_of shard (shard_supervisors shards)
      ≡ (if member shard shards then some (supervisor_name shard) else none)
unfolding supervisor_of shard_supervisors
supervisor_of-shard_supervisors shard [] = refl
supervisor_of-shard_supervisors shard (s ∷ ss) =
    ground (arith, supervisor_of-shard_supervisors shard ss)

module _ (parse : String → Option Uuid) (shard_count : ℕ) (s : Settings) where
  -- The supervisors that a node starts with, for its local shards.
  abbrev pub node_supervisors : ℕ → List (ℕ × String)
  node_supervisors j = shard_supervisors (local_shards (record s { node_id = j }) shard_count)

  -- With at least one node and one shard, and supervisors for each node's local shards: a call for
  -- a flow with a valid ID comes, on the node that the ID resolves to, to what the supervisor of the
  -- flow's shard replies, and on every other node to the error that the flow is not found.
  pub forward_request-node_supervisors :
      {A : Type 0}
      → (ask : String → FutureResult A) → (flow_id : String) (shard i j : ℕ) → 0 < shard_count
      → 0 < s.node_count
      → shard_id parse shard_count flow_id ≡ some shard
      → resolve_node parse shard_count s flow_id ≡ some i
      → forward_request parse shard_count (node_supervisors j) ask flow_id ≡ (
          if i == j
          then future_result (ask (supervisor_name shard))
          else err (flow_error graph_not_found))
  unfolding forward_request lookup_supervisor resolve_node
  forward_request-node_supervisors ask flow_id shard i j hs hn e r = ground (
    arith,
    supervisor_of-shard_supervisors shard (local_shards (record s { node_id = j }) shard_count),
    member-local_shards (record s { node_id = j }) shard_count shard,
    shard_id-lt parse shard_count flow_id shard hs e,
  )
