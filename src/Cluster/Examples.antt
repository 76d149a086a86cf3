-- ===== src/Cluster/Examples.antt =====
-- The theorems on the cluster (cluster/cluster.go) applied to two nodes and four shards.
use completer.Prelude.{
  ◌≢◌, true, ◌++◌, ℕ, ◌<◌, ◌≡◌, refl, String, [], ◌∷◌, Option, some, ◌==◌, arith,
}
use completer.Sharding.{Uuid, shard_id}
use completer.Cluster.{Settings, node_address, local_shards, resolve_node, get_client}
use completer.Actor.Api.{FutureResult, reply, future_result, supervisor_name}
use completer.Cluster.Proxy.{returned, proxy_call, serve, proxy_call-serve}
use completer.Cluster.Proxy.Streams.{
  Merge, MergeReach, merge_start, receive, pass_on, send_failed, sent_from, to_list,
  MergeReach-sent_from,
}
use completer.Cluster.Ownership.{member, get_client-local_shards}

abbrev settings : Settings
settings = record { node_count = 2; node_id = 0 }

-- A parser that knows one UUID.
abbrev parse_one : String → Option Uuid
parse_one s = some (record {
  first = 0 ∷ 0 ∷ 0 ∷ 0 ∷ 0 ∷ 0 ∷ 0 ∷ 5 ∷ [];
  last = 0 ∷ 0 ∷ 0 ∷ 0 ∷ 0 ∷ 0 ∷ 1 ∷ 2 ∷ [];
})

shard_known : shard_id parse_one 4 "flow" ≡ some 3
unfolding shard_id
shard_known = refl

get_client-local_shards_example :
    (i : ℕ) × (i < 2)
    × (resolve_node parse_one 4 settings "flow" ≡ some i)
    × (get_client parse_one 4 settings "flow" ≡ some (some (node_address settings i)))
    × ((j : ℕ) → member 3 (local_shards (record settings { node_id = j }) 4) ≡ (i == j))
get_client-local_shards_example =
    get_client-local_shards parse_one 4 settings "flow" 3 (omega arith) (omega arith) shard_known

-- A supervisor that replies its own name.
abbrev ask_name : String → FutureResult String
ask_name name = reply name

proxy_call-serve_example :
    proxy_call parse_one 4 settings (serve parse_one 4 settings ask_name "flow") "flow"
    ≡ returned (future_result (ask_name (supervisor_name 3)))
proxy_call-serve_example =
    proxy_call-serve parse_one 4 settings ask_name "flow" 3 (omega arith) (omega arith) shard_known

-- The event 5 of node 1 was sent to the client, and its event 6 waits.
abbrev merged : Merge ℕ
merged = receive 1 6 (pass_on true 1 5 (receive 1 5 merge_start))

merging : MergeReach merged
unfolding receive pass_on
merging =
    MergeReach.received_event 1 6
      (MergeReach.taken true 1 5 (MergeReach.received_event 1 5 MergeReach.start refl refl refl)
        refl refl)
      refl refl refl

merged-not_failed : merged.returned ≢ some send_failed
unfolding receive pass_on
merged-not_failed e = absurd (cc)

MergeReach-sent_from_example :
    sent_from 1 merged.sent ++ to_list (merged.held 1) ≡ merged.received 1
MergeReach-sent_from_example = MergeReach-sent_from merging 1 merged-not_failed
