-- ===== src/Actor/Api.antt =====
-- The service's calls on a node (actor/api.go): the supervisor of the flow's shard is looked up, and
-- the request is forwarded to it. What its future comes to is a parameter.
pub mod Calls
pub mod Forwarding
pub mod Replies
pub mod Await
pub mod Streams
pub mod Journals
pub mod Examples
use Prim.Native.String
use completer.Prelude.{ℕ, String, List, [], ◌∷◌, Option, none, some, itoa, ◌==◌, if◌then◌else◌}
use completer.Model.Command.{FlowError, graph_not_found}
use completer.Sharding.{Uuid, shard_id}

abbrev pub supervisor_base_name : String
supervisor_base_name = "supervisor"

abbrev pub event_buffer_size : ℕ
event_buffer_size = 1000

unfoldable pub supervisor_name : (shard_id : ℕ) → String
supervisor_name shard = String.◌++◌ supervisor_base_name (String.◌++◌ "-" (itoa shard))

-- The supervisors that NewGraphManager spawns, by their shards.
unfoldable pub shard_supervisors : (shards : List ℕ) → List (ℕ × String)
unfolding supervisor_name
shard_supervisors [] = []
shard_supervisors (shard ∷ shards) = (shard, supervisor_name shard) ∷ shard_supervisors shards

unfoldable pub supervisor_of : ℕ → List (ℕ × String) → Option String
supervisor_of shard [] = none
supervisor_of shard ((s, name) ∷ rest) = if s == shard then some name else supervisor_of shard rest

-- The errors of a call: a model error, the timeout of the future, or another error of it.
pub data ApiError : Type 0 where
  flow_error : FlowError → ApiError
  deadline_exceeded : ApiError
  future_failed : ApiError

pub data Result (A : Type 0) : Type 0 where
  ok : A → Result A
  err : ApiError → Result A

-- What the future of a request to an actor comes to.
pub data FutureResult (A : Type 0) : Type 0 where
  reply : A → FutureResult A
  reply_error : FlowError → FutureResult A
  timeout : FutureResult A
  failed : FutureResult A

abbrev pub future_result : {A : Type 0} → FutureResult A → Result A
future_result (reply a) = ok a
future_result (reply_error e) = err (flow_error e)
future_result timeout = err deadline_exceeded
future_result failed = err future_failed

module _ (parse : String → Option Uuid) (shard_count : ℕ) where
  unfoldable pub graph_actor_path : (flow_id : String) → Option String
  unfolding supervisor_name
  graph_actor_path flow_id = elim (shard_id parse shard_count flow_id) [
    | none ↦ none
    | some shard ↦ some (String.◌++◌ (supervisor_name shard) (String.◌++◌ "/" flow_id))
  ]

module _ (parse : String → Option Uuid) (shard_count : ℕ) (supervisors : List (ℕ × String)) where
  unfoldable pub lookup_supervisor : (flow_id : String) → Result String
  unfolding supervisor_of
  lookup_supervisor flow_id = elim (shard_id parse shard_count flow_id) [
    | none ↦ err (flow_error graph_not_found)
    | some shard ↦ elim (supervisor_of shard supervisors) [
      | none ↦ err (flow_error graph_not_found)
      | some name ↦ ok name
    ]
  ]

  -- forwardRequest; `ask` is RequestFuture on a supervisor with the request.
  unfoldable pub forward_request :
      {A : Type 0} → (ask : String → FutureResult A) → (flow_id : String) → Result A
  unfolding lookup_supervisor
  forward_request ask flow_id = elim (lookup_supervisor flow_id) [
    | err e ↦ err e
    | ok name ↦ future_result (ask name)
  ]
