-- ===== src/Cluster.antt =====
-- Which node serves a flow (cluster/cluster.go, and the forwarding of cluster/cluster_proxy.go).
-- Node `i` has the name `node_name i`; the map of proxies is kept by the node's index, since the
-- name, a prefix and the printed index, tells nodes apart. A client is the address it dials.
pub mod Ownership
pub mod Proxy
pub mod Examples
use completer.Prelude.{
  ℕ, zero, suc, ◌+◌, ◌%◌, String, List, [], ◌∷◌, Option, none, some, Bool, true, false, ◌==◌,
  if◌then◌else◌,
}
use text.Mathlib.Text.{◌==◌ as text_eq}
use completer.Sharding.{Uuid, shard_id}

-- The fields that are read; names and ports make the addresses.
pub record Settings : Type 0 where
  pub node_count : ℕ
  pub node_id : ℕ

pub data Address : Type 0 where
  localhost : Address
  node : ℕ → Address

unfoldable pub node_address : Settings → ℕ → Address
node_address s i = if i == s.node_id then localhost else node i

-- The loop of NewManager: the proxies for nodes i, i + 1, …
unfoldable pub proxies_from : Settings → (rounds i : ℕ) → List (ℕ × Address)
unfolding node_address
proxies_from s zero i = []
proxies_from s (suc n) i = (i, node_address s i) ∷ proxies_from s n (suc i)

unfoldable pub reverse_proxies : Settings → List (ℕ × Address)
unfolding proxies_from
reverse_proxies s = proxies_from s s.node_count 0

unfoldable pub proxy : ℕ → List (ℕ × Address) → Option Address
proxy i [] = none
proxy i ((j, a) ∷ ps) = if j == i then some a else proxy i ps

-- The loop of LocalShards.
unfoldable pub local_shards_from : Settings → (rounds shard : ℕ) → List ℕ
local_shards_from s zero shard = []
local_shards_from s (suc n) shard =
    let rest = local_shards_from s n (suc shard) in
    if (shard % s.node_count) == s.node_id then shard ∷ rest else rest

unfoldable pub local_shards : Settings → (shard_count : ℕ) → List ℕ
unfolding local_shards_from
local_shards s shard_count = local_shards_from s shard_count 0

module _ (parse : String → Option Uuid) (shard_count : ℕ) (s : Settings) where
  unfoldable pub resolve_node : String → Option ℕ
  resolve_node flow_id = elim (shard_id parse shard_count flow_id) [
    | none ↦ none
    | some shard ↦ some (shard % s.node_count)
  ]

  -- GetClient: the outer `none` is the error, and the inner one the nil client of a missing key.
  unfoldable pub get_client : String → Option (Option Address)
  unfolding resolve_node reverse_proxies proxy
  get_client flow_id = elim (resolve_node flow_id) [
    | none ↦ none
    | some i ↦ some (proxy i (reverse_proxies s))
  ]

  -- shouldForward of a request with the flow ID that extractFlowID gives, which is empty where the
  -- request has none: whether to forward, and the node.
  unfoldable pub should_forward : String → Bool × Option ℕ
  unfolding resolve_node
  should_forward flow_id =
      if text_eq flow_id "" then (false, none) else elim (resolve_node flow_id) [
        | none ↦ (false, none)
        | some i ↦ if i == s.node_id then (false, some i) else (true, some i)
      ]

-- extractFlowID, of the path, the query parameter and the path parameter of a request.
unfoldable pub extract_flow_id : (path query param : String) → String
extract_flow_id path query param = if text_eq path "/graph" then query else param
