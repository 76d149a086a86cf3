-- ===== src/Setup/Shards.antt =====
-- The shards that a started node serves, and the calls that reach them (setup/setup.go,
-- cluster/cluster.go, actor/api.go).
use completer.Prelude.{
  ℕ, ◌%◌, ◌<◌, ◌≡◌, refl, sym, ap, ◌∙◌, subst, inl, inr, String, List, [], ◌∷◌, Option, some, ◌==◌,
  ◌&&◌, ltb, if◌then◌else◌, arith, Bool-cases,
}
use completer.Sharding.{Uuid, shard_id}
use completer.Cluster.{Settings, local_shards, local_shards_from, resolve_node}
use completer.Model.Command.{graph_not_found}
use completer.Actor.Api.{
  supervisor_name, shard_supervisors, err, flow_error, FutureResult, future_result, forward_request,
}
use completer.Actor.Api.Forwarding.{forward_request-node_supervisors}
use completer.Setup.Config.{
  StartUp, ready, StartPanic, WhenReady, WhenReady-bind, ready-injective, get_string_config,
  get_int_config, default_of,
}
use completer.Setup.Service.{
  System, Service, init_from_env, int_config, string_config, set_log_level, init_storage_from_env,
  get_shard_count, settings_of, dial_all, checked_local_shards, new_graph_manager, new_api_server,
}

module _ {D : Type 0} (sys : System D) where
  -- What the steps of a start have given where it is ready.
  pub record Started (v : Service D) : Type 0 where
    pub storage : init_storage_from_env sys ≡ ready v.storage
    pub node_count : int_config sys "CLUSTER_NODE_COUNT" ≡ ready v.settings.node_count
    pub shard_count : get_shard_count sys v.settings.node_count ≡ ready v.shard_count
    pub node_id : int_config sys "CLUSTER_NODE_ID" ≡ ready v.settings.node_id
    pub shards : checked_local_shards sys v.settings v.shard_count ≡ ready v.shards
    pub supervisors : v.supervisors ≡ shard_supervisors v.shards

  init_from_env-WhenReady : WhenReady Started (init_from_env sys)
  unfolding init_from_env
  init_from_env-WhenReady = WhenReady-bind Started (set_log_level sys) _ λ level _.
      WhenReady-bind Started (init_storage_from_env sys) _ λ storage h_storage.
        WhenReady-bind Started (int_config sys "CLUSTER_NODE_COUNT") _ λ count h_count.
          WhenReady-bind Started (get_shard_count sys count) _ λ shard_count h_shards.
            WhenReady-bind Started (int_config sys "CLUSTER_NODE_ID") _ λ id h_id.
              WhenReady-bind Started (int_config sys "CLUSTER_NODE_PORT") _ λ port _.
                WhenReady-bind Started (dial_all sys _) _ λ dialed _.
                  WhenReady-bind Started
                    (checked_local_shards sys (settings_of sys count id) shard_count) _
                    λ shards h_local.
                      WhenReady-bind Started (new_graph_manager sys shards) _ λ url _.
                        WhenReady-bind Started (new_api_server sys _ _ _) _ λ api _. record {
                          storage = h_storage;
                          node_count = h_count;
                          shard_count = h_shards;
                          node_id = h_id;
                          shards = h_local;
                          supervisors = refl;
                        }

  pub init_from_env-Started : (v : Service D) → init_from_env sys ≡ ready v → Started v
  init_from_env-Started v e = subst (WhenReady Started) e init_from_env-WhenReady

  checked_local_shards-ready :
      (s : Settings) (n : ℕ) (shards : List ℕ)
      → checked_local_shards sys s n ≡ ready shards
      → (shards ≡ local_shards s n) × (0 < n → 0 < s.node_count)
  unfolding checked_local_shards
  checked_local_shards-ready s n shards e = elim (Bool-cases ((s.node_count == 0) && ltb 0 n)) [
    | inl q ↦ absurd (unequal (rw (q, checked_local_shards) at e))
    | inr q ↦ (sym (ready-injective (rw (q, checked_local_shards) at e)), λ h. ground (arith, q))
  ]
    where
      unequal : {p : StartPanic} {x : List ℕ} → StartUp.panicked p ≡ ready x → ⊥
      unequal h = cc

  -- A node that was started with at least one shard serves the flow of a valid ID exactly if the
  -- settings' node for that flow is its own: its calls for the flow then come to what the supervisor
  -- of the flow's shard replies, and otherwise to the error that the flow is not found. The node for
  -- a flow is one of the nodes, and any settings with as many nodes give it for as many shards.
  pub init_from_env-forward_request :
      {A : Type 0}
      → (parse : String → Option Uuid) (v : Service D) (ask : String → FutureResult A)
        (flow_id : String) (shard : ℕ) (t : Settings)
      → init_from_env sys ≡ ready v
      → 0 < v.shard_count
      → shard_id parse v.shard_count flow_id ≡ some shard
      → t.node_count ≡ v.settings.node_count
      → (i : ℕ) × (i < v.settings.node_count)
        × (resolve_node parse v.shard_count v.settings flow_id ≡ some i)
        × (resolve_node parse v.shard_count t flow_id ≡ some i)
        × (forward_request parse v.shard_count v.supervisors ask flow_id ≡ (
            if i == v.settings.node_id
            then future_result (ask (supervisor_name shard))
            else err (flow_error graph_not_found)))
  unfolding resolve_node
  init_from_env-forward_request parse v ask flow_id shard t e positive found same_count =
      let started = init_from_env-Started v e in
      let (own, some_node) =
        checked_local_shards-ready v.settings v.shard_count v.shards started.shards in
      let resolved : resolve_node parse v.shard_count v.settings flow_id
          ≡ some (shard % v.settings.node_count) =
        rw (found, resolve_node) refl in
      (
        shard % v.settings.node_count,
        omega (arith, some_node positive),
        resolved,
        rw (found, resolve_node, same_count) refl,
        rw (started.supervisors, own)
            (forward_request-node_supervisors parse v.shard_count v.settings ask flow_id shard
              (shard % v.settings.node_count) v.settings.node_id positive (some_node positive) found
              resolved),
      )

  default_shard_count :
      sys.env "CLUSTER_SHARD_COUNT" ≡ "" → string_config sys "CLUSTER_SHARD_COUNT" ≡ "1"
  unfolding get_string_config default_of
  default_shard_count unset = rw (unset, get_string_config) refl

  get_shard_count-default :
      (node_count : ℕ)
      → string_config sys "CLUSTER_SHARD_COUNT" ≡ "1"
      → sys.atoi "1" ≡ some 1
      → get_shard_count sys node_count ≡ ready 1
  unfolding get_shard_count get_int_config
  get_shard_count-default node_count default one =
      rw (default, get_shard_count, get_int_config) (rw one refl)

  local_shards-one : (s : Settings) → local_shards s 1 ≡ (if 0 == s.node_id then 0 ∷ [] else [])
  unfolding local_shards local_shards_from
  local_shards-one s = rw (zero_mod s.node_count) refl
    where
      zero_mod : (n : ℕ) → 0 % n ≡ 0
      zero_mod n = omega arith

  -- A node that was started without a number of shards in its environment has one shard in all,
  -- whatever the number of nodes: the node with the ID 0 serves it, and every other node serves
  -- nothing; if "1" is the number 1.
  pub init_from_env-default_shards :
      (v : Service D)
      → init_from_env sys ≡ ready v
      → sys.env "CLUSTER_SHARD_COUNT" ≡ ""
      → sys.atoi "1" ≡ some 1
      → (v.shard_count ≡ 1) × (v.shards ≡ (if 0 == v.settings.node_id then 0 ∷ [] else []))
  init_from_env-default_shards v e unset one =
      let started = init_from_env-Started v e in
      let count : v.shard_count ≡ 1 = ready-injective (
        sym started.shard_count
        ∙ get_shard_count-default v.settings.node_count (default_shard_count unset) one) in
      (
        count,
        (checked_local_shards-ready v.settings v.shard_count v.shards started.shards).0
            ∙ ap (local_shards v.settings) count
            ∙ local_shards-one v.settings,
      )
