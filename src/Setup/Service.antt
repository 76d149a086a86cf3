-- ===== src/Setup/Service.antt =====
-- initStorageFromEnv and InitFromEnv (setup/setup.go), with the parts of NewManager
-- (cluster/cluster.go), NewGraphManager (actor/api.go), NewInternalFlowService
-- (server/internal_server.go) and NewAPIServer (server/server.go) that may fail.
use Prim.Native.String
use text.Mathlib.Text.{◌==◌ as text_eq}
use completer.Prelude.{
  ℕ, ◌*◌, ◌==◌, ◌&&◌, ltb, String, List, [], ◌∷◌, Option, none, some, Bool, if◌then◌else◌, itoa,
}
use completer.Cluster.{Settings, Address, localhost, node, reverse_proxies, local_shards}
use completer.Actor.Api.{shard_supervisors}
use completer.Setup.Config.{
  StartUp, ready, returned, panicked, exited, invalid_db_url, invalid_functions_url, listen_failed,
  divide_by_zero, dial_failed, spawn_failed, ◌>>=◌, get_string_config, get_int_config,
}
use completer.Setup.Database.{Url, Driver, create_db_connection}

-- What the start asks of the system and of libraries: os.Getenv, strconv.Atoi, os.Getwd (an error of
-- which would end the process), logrus.ParseLevel, url.Parse, URL.String behind a change of the path,
-- the SQL driver, grpc.Dial, SpawnNamed, the tracer of the Zipkin library and net.Listen.
pub record System (D : Type 0) : Type 0 where
  pub env : String → String
  pub atoi : String → Option ℕ
  pub cwd : String
  pub is_level : String → Bool
  pub parse_url : String → Option Url
  pub with_path : Url → (path : String) → String
  pub driver : Driver D
  pub dial : (address : String) → Bool
  pub spawn : (name : String) → Bool
  pub start_tracer : (own_url zipkin_url : String) → Bool
  pub listen : (address : String) → Bool

-- The provider of journals and the store of blobs are of one kind.
pub data Storage (D : Type 0) : Type 0 where
  in_memory : (snapshot_interval : ℕ) → Storage D
  sql : D → (snapshot_interval : ℕ) → Storage D

-- What InitFromEnv returns: the settings that its servers run with.
pub record Service (D : Type 0) : Type 0 where
  pub storage : Storage D
  pub settings : Settings
  pub shard_count : ℕ
  pub shards : List ℕ
  pub supervisors : List (ℕ × String)
  pub functions_url : String
  pub internal_listen : String
  pub rest_listen : String
  pub grpc_listen : String

-- The text of a node's address.
unfoldable pub address_text : (node_prefix : String) → (node_port : ℕ) → Address → String
address_text prefix port localhost = String.◌++◌ "localhost:" (itoa port)
address_text prefix port (node i) =
    String.◌++◌ (String.◌++◌ prefix (itoa i)) (String.◌++◌ ":" (itoa port))

module _ {D : Type 0} (sys : System D) where
  abbrev pub string_config : String → String
  string_config = get_string_config sys.env sys.atoi sys.cwd

  abbrev pub int_config : String → StartUp ℕ
  int_config = get_int_config sys.env sys.atoi sys.cwd

  -- Setting the level of the logs, which exits on an invalid one.
  unfoldable pub set_log_level : StartUp Unit
  set_log_level = if sys.is_level (string_config "LOG_LEVEL") then ready tt else exited

  unfoldable pub snapshot_interval : ℕ
  snapshot_interval = elim (sys.atoi (string_config "SNAPSHOT_INTERVAL")) [
    | none ↦ 1000
    | some n ↦ n
  ]

  unfoldable pub init_storage_from_env : StartUp (Storage D)
  unfolding snapshot_interval
  init_storage_from_env = elim (sys.parse_url (string_config "DB_URL")) [
    | none ↦ returned invalid_db_url
    | some url ↦
        if text_eq url.scheme "inmem"
        then ready (in_memory snapshot_interval)
        else (create_db_connection sys.driver url >>= λ d. ready (sql d snapshot_interval))
  ]

  abbrev pub settings_of : (node_count node_id : ℕ) → Settings
  settings_of node_count node_id = record { node_count = node_count; node_id = node_id }

  unfoldable pub get_shard_count : (node_count : ℕ) → StartUp ℕ
  get_shard_count node_count =
      if text_eq (string_config "CLUSTER_SHARD_COUNT") ""
      then ready (10 * node_count)
      else int_config "CLUSTER_SHARD_COUNT"

  -- The dials of NewManager, in order.
  unfoldable pub dial_all : (addresses : List String) → StartUp Unit
  dial_all [] = ready tt
  dial_all (a ∷ rest) = if sys.dial a then dial_all rest else panicked (dial_failed a)

  unfoldable pub node_addresses : (prefix : String) (port : ℕ) → List (ℕ × Address) → List String
  unfolding address_text
  node_addresses prefix port [] = []
  node_addresses prefix port ((i, a) ∷ rest) =
      address_text prefix port a ∷ node_addresses prefix port rest

  -- LocalShards, with the panic of a modulo by zero.
  unfoldable pub checked_local_shards : Settings → (shard_count : ℕ) → StartUp (List ℕ)
  checked_local_shards s shard_count =
      if (s.node_count == 0) && ltb 0 shard_count
      then panicked divide_by_zero
      else ready (local_shards s shard_count)

  unfoldable pub functions_url : StartUp String
  functions_url =
      let url = string_config "API_URL" in
      elim (sys.parse_url url) [
        | none ↦ returned invalid_functions_url
        | some u ↦ ready (if text_eq u.path "" then sys.with_path u "r" else url)
      ]

  -- The supervisors of NewGraphManager, spawned in order.
  unfoldable pub spawn_all : List (ℕ × String) → StartUp Unit
  spawn_all [] = ready tt
  spawn_all ((shard, name) ∷ rest) =
      if sys.spawn name then spawn_all rest else panicked (spawn_failed name)

  unfoldable pub new_graph_manager : (shards : List ℕ) → StartUp String
  unfolding functions_url spawn_all
  new_graph_manager shards = do
    url ← functions_url
    executor ← spawn_all ((0, "executor") ∷ [])
    supervisors ← spawn_all (shard_supervisors shards)
    ready url

  unfoldable pub new_api_server : (rest_listen grpc_listen zipkin_url : String) → StartUp Unit
  new_api_server rest_listen grpc_listen zipkin_url =
      if sys.start_tracer rest_listen zipkin_url
      then (if sys.listen grpc_listen then ready tt else returned listen_failed)
      else exited

  unfoldable pub init_from_env : StartUp (Service D)
  init_from_env = do
    level ← set_log_level
    storage ← init_storage_from_env
    node_count ← int_config "CLUSTER_NODE_COUNT"
    shard_count ← get_shard_count node_count
    node_id ← int_config "CLUSTER_NODE_ID"
    node_port ← int_config "CLUSTER_NODE_PORT"
    dialed ← dial_all (
        node_addresses (string_config "CLUSTER_NODE_PREFIX") node_port
          (reverse_proxies (settings_of node_count node_id)))
    shards ← checked_local_shards (settings_of node_count node_id) shard_count
    url ← new_graph_manager shards
    api ←
        new_api_server (string_config "LISTEN") (string_config "GRPC_LISTEN")
          (string_config "ZIPKIN_URL")
    ready (record {
      storage = storage;
      settings = settings_of node_count node_id;
      shard_count = shard_count;
      shards = shards;
      supervisors = shard_supervisors shards;
      functions_url = url;
      internal_listen = String.◌++◌ ":" (string_config "CLUSTER_NODE_PORT");
      rest_listen = string_config "LISTEN";
      grpc_listen = string_config "GRPC_LISTEN";
    })
