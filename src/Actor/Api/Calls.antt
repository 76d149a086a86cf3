-- ===== src/Actor/Api/Calls.antt =====
-- The calls of the service's interface (actor/api.go): each forwards its request, and turns the
-- reply into the response type of the call by a type assertion, which panics on another type.
use completer.Prelude.{ℕ, String, List, Option, none, some, Bool}
use completer.Sharding.{Uuid}
use completer.Actor.State.{StageRepresentation}
use completer.Actor.Api.{Result, ok, err, FutureResult, forward_request}

-- The responses, by their types.
pub data Response : Type 0 where
  create_graph_response : (flow_id : String) → Response
  get_graph_state_response : List StageRepresentation → Response
  add_stage_response : (stage_id : ℕ) → Response
  await_stage_result_response : (stage_id : ℕ) → Response
  complete_stage_externally_response : (stage_id : ℕ) (successful : Bool) → Response
  graph_request_processed_response : Response

-- What a call comes to.
pub data Called : Type 0 where
  returned : Result Response → Called
  type_assertion_failed : Called

pub data Call : Type 0 where
  create_graph get_graph_state add_invoke_function add_delay add_stage add_value_stage : Call
  await_stage_result complete_stage_externally commit : Call

-- The type of the response that each call asserts: its value of that type, or none.
unfoldable pub has_type : Call → Response → Option Response
has_type create_graph (create_graph_response f) = some (create_graph_response f)
has_type get_graph_state (get_graph_state_response s) = some (get_graph_state_response s)
has_type add_invoke_function (add_stage_response i) = some (add_stage_response i)
has_type add_delay (add_stage_response i) = some (add_stage_response i)
has_type add_stage (add_stage_response i) = some (add_stage_response i)
has_type add_value_stage (add_stage_response i) = some (add_stage_response i)
has_type await_stage_result (await_stage_result_response i) = some (await_stage_result_response i)
has_type complete_stage_externally (complete_stage_externally_response i b) =
    some (complete_stage_externally_response i b)
has_type commit graph_request_processed_response = some graph_request_processed_response
has_type _ _ = none

-- `r.(*model.…Response)`
unfoldable pub assert_type : Call → Response → Called
unfolding has_type
assert_type c r = elim (has_type c r) [ none ↦ type_assertion_failed | some x ↦ returned (ok x) ]

-- The end of each call, with the result of forwardRequest. CompleteStageExternally does not look
-- at the error: it asserts the type of the nil response.
unfoldable pub respond : Call → Result Response → Called
unfolding assert_type
respond complete_stage_externally (err e) = type_assertion_failed
respond c (err e) = returned (err e)
respond c (ok r) = assert_type c r

module _ (parse : String → Option Uuid) (shard_count : ℕ) (supervisors : List (ℕ × String)) where
  unfoldable pub call : Call → (ask : String → FutureResult Response) → (flow_id : String) → Called
  unfolding respond
  call c ask flow_id = respond c (forward_request parse shard_count supervisors ask flow_id)
