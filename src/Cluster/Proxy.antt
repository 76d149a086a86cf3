-- ===== src/Cluster/Proxy.antt =====
-- The service that a node offers to clients (cluster/cluster_proxy.go): a call is passed to the node
-- that serves the flow, the node itself included. `rpc` stands for the call of a gRPC client, by the
-- address that it dials.
pub mod Streams
pub mod Relay
use completer.Prelude.{ℕ, ◌<◌, ◌≡◌, refl, ap, String, List, map, Option, none, some, arith, ==-refl}
use completer.Sharding.{Uuid, shard_id}
use completer.Cluster.{
  Settings, Address, localhost, node, node_address, reverse_proxies, get_client,
}
use completer.Cluster.Ownership.{get_client-local_shards}
use completer.Actor.Api.{supervisor_name, Result, FutureResult, future_result, forward_request}
use completer.Actor.Api.Forwarding.{node_supervisors, forward_request-node_supervisors}

-- GetClients, in the order of the map.
unfoldable pub get_clients : Settings → List Address
unfolding reverse_proxies
get_clients s = map (λ p. p.1) (reverse_proxies s)

-- What a proxied call comes to: the error of GetClient, a call through the nil client of a missing
-- key, or what the client returns.
pub data Proxied (A : Type 0) : Type 0 where
  refused : Proxied A
  nil_client : Proxied A
  returned : A → Proxied A

module _ (parse : String → Option Uuid) (shard_count : ℕ) (s : Settings) where
  -- AddStage and the other calls for a flow.
  unfoldable pub proxy_call : {A : Type 0} → (rpc : Address → A) → (flow_id : String) → Proxied A
  unfolding get_client
  proxy_call rpc flow_id = elim (get_client parse shard_count s flow_id) [
    | none ↦ refused
    | some client ↦ elim client [ none ↦ nil_client | some address ↦ returned (rpc address) ]
  ]

  -- CreateGraph, which makes the flow's ID; `new_id` is what uuid.NewRandom gives, and its error is
  -- returned too.
  unfoldable pub create_graph :
      {A : Type 0} → (rpc : String → Address → A) → (new_id : Option String) → Proxied A
  unfolding proxy_call
  create_graph rpc new_id = elim new_id [
    | none ↦ refused
    | some flow_id ↦ proxy_call (rpc flow_id) flow_id
  ]

  -- What the nodes answer: each node forwards to the supervisors of its local shards.
  abbrev pub served_by : Address → ℕ
  served_by localhost = s.node_id
  served_by (node i) = i

  abbrev pub serve :
      {A : Type 0} → (ask : String → FutureResult A) → (flow_id : String) → Address → Result A
  serve ask flow_id address =
      forward_request parse shard_count (node_supervisors parse shard_count s (served_by address))
        ask flow_id

  served_by-node_address : (i : ℕ) → served_by (node_address s i) ≡ i
  unfolding node_address
  served_by-node_address i = ground arith

  -- With at least one node and one shard, whichever node a call for a flow with a valid ID comes to,
  -- it is neither refused nor sent through a nil client: it returns what the supervisor of the
  -- flow's shard replies.
  pub proxy_call-serve :
      {A : Type 0}
      → (ask : String → FutureResult A) → (flow_id : String) (shard : ℕ) → 0 < shard_count
      → 0 < s.node_count
      → shard_id parse shard_count flow_id ≡ some shard
      → proxy_call (serve ask flow_id) flow_id
        ≡ returned (future_result (ask (supervisor_name shard)))
  unfolding proxy_call
  proxy_call-serve ask flow_id shard hs hn e =
      let (i, below, resolved, client, local) =
        get_client-local_shards parse shard_count s flow_id shard hs hn e in
      rw (client, proxy_call)
        (ap returned (
          rw
            (
              served_by-node_address i,
              forward_request-node_supervisors parse shard_count s ask flow_id shard i i hs hn e
                  resolved,
              ==-refl i,
            )
            refl))
