-- ===== src/Cluster/Ownership.antt =====
-- Every shard, and so every flow, is served by exactly one node of the cluster.
use completer.Prelude.{
  ℕ, zero, suc, ◌+◌, ◌%◌, ◌≤◌, ◌<◌, ◌≡◌, refl, ap, String, List, [], ◌∷◌, Option, some, Bool, false,
  ◌==◌, ltb, leb, ◌&&◌, ◌||◌, arith,
}
use completer.Sharding.{Uuid, shard_id, shard_id-lt}
use completer.Cluster.{
  Settings, node_address, proxies_from, reverse_proxies, proxy, local_shards_from, local_shards,
  resolve_node, get_client,
}

abbrev pub member : ℕ → List ℕ → Bool
member x [] = false
member x (y ∷ ys) = y == x || member x ys

member-local_shards_from :
    (s : Settings) (n i shard : ℕ)
    → member shard (local_shards_from s n i)
      ≡ (leb i shard && ltb shard (i + n) && ((shard % s.node_count) == s.node_id))
unfolding local_shards_from
member-local_shards_from s zero i shard = ground arith
member-local_shards_from s (suc n) i shard =
    ground (arith, member-local_shards_from s n (suc i) shard)

-- A shard is local to a node exactly when it is one of the shards and the node is its own.
pub member-local_shards :
    (s : Settings) (shard_count shard : ℕ)
    → member shard (local_shards s shard_count)
      ≡ (ltb shard shard_count && ((shard % s.node_count) == s.node_id))
unfolding local_shards
member-local_shards s shard_count shard =
    ground (arith, member-local_shards_from s shard_count 0 shard)

proxy-proxies_from :
    (s : Settings) (n i k : ℕ)
    → i ≤ k
    → k < i + n
    → proxy k (proxies_from s n i) ≡ some (node_address s k)
unfolding proxy proxies_from
proxy-proxies_from s zero i k h l = absurd (omega arith)
proxy-proxies_from s (suc n) i k h l = ground (arith, proxy-proxies_from s n (suc i) k)

module _ (parse : String → Option Uuid) (shard_count : ℕ) (s : Settings) where
  -- With at least one node and one shard, the client for a flow with a valid ID is that of a node
  -- that exists, never nil, and the flow's shard is among the shards that this node, and no other,
  -- calls local.
  pub get_client-local_shards :
      (flow_id : String) (shard : ℕ)
      → 0 < shard_count
      → 0 < s.node_count
      → shard_id parse shard_count flow_id ≡ some shard
      → (i : ℕ) × (i < s.node_count)
        × (resolve_node parse shard_count s flow_id ≡ some i)
        × (get_client parse shard_count s flow_id ≡ some (some (node_address s i)))
        × ((j : ℕ) → member shard (local_shards (record s { node_id = j }) shard_count) ≡ (i == j))
  unfolding get_client resolve_node reverse_proxies
  get_client-local_shards flow_id shard hs hn e = (
    shard % s.node_count,
    omega arith,
    rw (e, resolve_node) refl,
    rw (e, get_client)
        (ap some
          (proxy-proxies_from s s.node_count 0 (shard % s.node_count) (omega arith) (omega arith))),
    λ j. ground (
      arith,
      member-local_shards (record s { node_id = j }) shard_count shard,
      shard_id-lt parse shard_count flow_id shard hs e,
    ),
  )
