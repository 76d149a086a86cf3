-- ===== src/Actor/Executor/Examples.antt =====
-- The executor with a service that answers every request, over the store in memory.
use completer.Prelude.{◌≡◌, refl, [], ◌∷◌, none, some, true, done}
use completer.Model.Datum.{empty, post}
use completer.Blobs.InMemory.{new_in_mem_blob_store, in_mem_store}
use completer.Blobs.Contract.{IsFresh, in_mem_store-IsBlobStore}
use completer.Blobs.Examples.{new_in_mem_blob_store-IsFresh}
use completer.Actor.Executor.{
  Backend, InvokeStageRequest, InvokeFunctionRequest, FaasInvocationResponse, HttpResponse,
  handle_invoke_stage,
}
use completer.Actor.Executor.Functions.{handle_invoke_function}
use completer.Actor.Executor.Replies.{StageReplied, handle_invoke_stage-StageReplied}
use completer.Actor.Executor.FunctionReplies.{
  FunctionReplied, handle_invoke_function-FunctionReplied,
}

abbrev answer : HttpResponse
answer = record {
  status_code = 200;
  headers = ("Content-Type", "text/plain" ∷ []) ∷ ("Fn_call_id", "call" ∷ []) ∷ [];
  body = some (104 ∷ 105 ∷ []);
}

-- A service that answers every request, and a codec of one message each way.
abbrev echo : Backend
echo = record {
  faas_addr = "http://functions/r";
  new_request = λ method url. true;
  client_do = λ request. some answer;
  marshal = λ request. some (123 ∷ 125 ∷ []);
  unmarshal = λ bytes. some (some (record { successful = true; datum = empty }));
  canonical = λ key. key;
}

abbrev stage_message : InvokeStageRequest
stage_message = record {
  flow_id = "flow";
  stage_id = 3;
  function_id = "app/fn";
  args = [];
  closure = none;
}

abbrev function_message : InvokeFunctionRequest
function_message = record {
  flow_id = "flow";
  stage_id = 4;
  function_id = "app/other";
  arg = record { body = none; headers = []; method = post };
}

handle_invoke_stage-StageReplied_example :
    (r : FaasInvocationResponse) × (handle_invoke_stage echo stage_message ≡ done r)
    × StageReplied echo stage_message r
handle_invoke_stage-StageReplied_example = handle_invoke_stage-StageReplied echo stage_message refl

handle_invoke_function-FunctionReplied_example :
    FunctionReplied echo in_mem_store IsFresh function_message
      (handle_invoke_function echo in_mem_store function_message new_in_mem_blob_store).0
      new_in_mem_blob_store
      (handle_invoke_function echo in_mem_store function_message new_in_mem_blob_store).1
handle_invoke_function-FunctionReplied_example =
    handle_invoke_function-FunctionReplied echo in_mem_store IsFresh in_mem_store-IsBlobStore
      function_message new_in_mem_blob_store new_in_mem_blob_store-IsFresh
