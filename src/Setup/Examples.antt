-- ===== src/Setup/Examples.antt =====
-- A node of three that is started over SQLite.
use text.Mathlib.Text.{◌==◌ as text_eq}
use completer.Prelude.{
  ℕ, ◌<◌, ◌≡◌, refl, subst, inl, inr, String, List, [], ◌∷◌, Option, none, some, true,
  if◌then◌else◌, itoa, ◌==◌, arith,
}
use completer.Sharding.{Uuid, shard_id}
use completer.Model.Command.{graph_not_found}
use completer.Actor.Api.{
  supervisor_name, shard_supervisors, err, flow_error, FutureResult, reply, future_result,
  forward_request,
}
use completer.Cluster.{
  node_address, reverse_proxies, proxies_from, local_shards, local_shards_from, resolve_node,
}
use completer.Setup.Config.{ready, get_string_config, get_int_config, default_of}
use completer.Setup.Database.{
  Url, Driver, Statement, create_events, create_actors_index, create_snapshots, create_blobs,
  create_db_connection, connect, tables, exec_all, set_limits,
}
use completer.Setup.Service.{
  System, Service, sql, init_from_env, set_log_level, init_storage_from_env, snapshot_interval,
  get_shard_count, dial_all, checked_local_shards, new_graph_manager, functions_url, spawn_all,
  new_api_server, node_addresses, address_text,
}
use completer.Setup.Storage.{Table, blobs, Creates, DriverLaws, init_from_env-StoresIn}
use completer.Setup.Shards.{init_from_env-forward_request, init_from_env-default_shards}

-- A database as the statements that were executed in it.
abbrev recording : Driver (List Statement)
recording = record {
  make_dir = λ path. true;
  open_db = λ driver uri. some [];
  ping = λ d. true;
  set_max_conns = λ idle most d. d;
  exec = λ s d. some (s ∷ d);
}

abbrev Executed : Table → List Statement → Type 0
Executed t d = Creates d t

some-injective : {a b : List Statement} → some a ≡ some b → a ≡ b
some-injective e = cc

recording-DriverLaws : DriverLaws recording Executed
recording-DriverLaws = record {
  created = λ s t d e c h. subst (Executed t) (some-injective h) (inl c);
  kept = λ s t d e k h. subst (Executed t) (some-injective h) (inr k);
}

abbrev numbers : String → Option ℕ
numbers s =
    if text_eq s "1"
    then some 1
    else if text_eq s "3"
    then some 3
    else if text_eq s "6"
    then some 6
    else if text_eq s "1000"
    then some 1000
    else if text_eq s "19081"
    then some 19081
    else none

abbrev parse : String → Option Url
parse s =
    if text_eq s "sqlite3:///srv/data/flow.db"
    then some (record { scheme = "sqlite3"; path = "/srv/data/flow.db"; text = s })
    else some (record { scheme = "http"; path = "/invoke"; text = s })

abbrev system : (shard_count : String) → System (List Statement)
system shard_count = record {
  env = λ key.
      if text_eq key "CLUSTER_NODE_COUNT"
      then "3"
      else if text_eq key "CLUSTER_NODE_ID"
      then "1"
      else if text_eq key "CLUSTER_SHARD_COUNT"
      then shard_count
      else "";
  atoi = numbers;
  cwd = "/srv";
  is_level = λ level. true;
  parse_url = parse;
  with_path = λ url path. url.text;
  driver = recording;
  dial = λ address. true;
  spawn = λ name. true;
  start_tracer = λ own zipkin. true;
  listen = λ address. true;
}

abbrev sqlite : List Statement
sqlite = create_blobs ∷ create_snapshots ∷ create_actors_index ∷ create_events ∷ []

-- The node with some shards, and so their supervisors.
abbrev service_with :
    (shard_count : ℕ) (shards : List ℕ) (supervisors : List (ℕ × String)) → Service (List Statement)
service_with shard_count shards supervisors = record {
  storage = sql sqlite 1000;
  settings = record { node_count = 3; node_id = 1 };
  shard_count = shard_count;
  shards = shards;
  supervisors = supervisors;
  functions_url = "http://localhost:8080/invoke";
  internal_listen = ":19081";
  rest_listen = ":8081";
  grpc_listen = "127.0.0.1:9999";
}

abbrev service : Service (List Statement)
service = service_with 6 (1 ∷ 4 ∷ []) ((1, "supervisor-1") ∷ (4, "supervisor-4") ∷ [])

six_started : init_from_env (system "6") ≡ ready service
unfolding init_from_env set_log_level init_storage_from_env snapshot_interval create_db_connection
    connect tables exec_all set_limits get_shard_count get_string_config get_int_config default_of
    dial_all checked_local_shards local_shards local_shards_from new_graph_manager functions_url
    spawn_all shard_supervisors supervisor_name new_api_server node_addresses address_text
    reverse_proxies proxies_from node_address itoa
six_started = refl

abbrev only : Service (List Statement)
only = service_with 1 [] []

none_started : init_from_env (system "") ≡ ready only
unfolding init_from_env set_log_level init_storage_from_env snapshot_interval create_db_connection
    connect tables exec_all set_limits get_shard_count get_string_config get_int_config default_of
    dial_all checked_local_shards local_shards local_shards_from new_graph_manager functions_url
    spawn_all shard_supervisors supervisor_name new_api_server node_addresses address_text
    reverse_proxies proxies_from node_address itoa
none_started = refl

init_from_env-default_shards_example : (only.shard_count ≡ 1) × (only.shards ≡ [])
init_from_env-default_shards_example =
    init_from_env-default_shards (system "") only none_started refl refl

-- A parser that knows one UUID.
abbrev parse_one : String → Option Uuid
parse_one s = some (record {
  first = 0 ∷ 0 ∷ 0 ∷ 0 ∷ 0 ∷ 0 ∷ 0 ∷ 5 ∷ [];
  last = 0 ∷ 0 ∷ 0 ∷ 0 ∷ 0 ∷ 0 ∷ 0 ∷ 1 ∷ [];
})

shard_known : shard_id parse_one 6 "flow" ≡ some 4
unfolding shard_id
shard_known = refl

-- A supervisor that replies its own name.
abbrev ask_name : String → FutureResult String
ask_name name = reply name

init_from_env-forward_request_example :
    (i : ℕ) × (i < 3)
    × (resolve_node parse_one 6 service.settings "flow" ≡ some i)
    × (resolve_node parse_one 6 (record service.settings { node_id = 2 }) "flow" ≡ some i)
    × (forward_request parse_one 6 service.supervisors ask_name "flow" ≡ (
        if i == 1
        then future_result (ask_name (supervisor_name 4))
        else err (flow_error graph_not_found)))
init_from_env-forward_request_example =
    init_from_env-forward_request (system "6") parse_one service ask_name "flow" 4
      (record service.settings { node_id = 2 }) six_started (omega arith) shard_known refl

init_from_env-StoresIn_example : Creates sqlite blobs
init_from_env-StoresIn_example =
    init_from_env-StoresIn (system "6") Executed service blobs recording-DriverLaws six_started
