-- ===== src/Actor/Executor.antt =====
-- The executor, which runs a stage's closure or a function over HTTP (actor/executor.go). The HTTP
-- client, the JSON codec and the canonical form of header keys are parameters. The two handlers run
-- in goroutines of their own: HandleInvokeStage is a function of its message, and
-- HandleInvokeFunction (Functions) of its message and of the blob store.
pub mod Functions
pub mod Replies
pub mod FunctionReplies
pub mod Examples
use completer.Prelude.{
  ℕ, String, List, [], ◌∷◌, ◌++◌, map, Option, none, some, Bool, true, false, not, ltb, leb, ◌&&◌,
  itoa, if◌then◌else◌, Outcome, done, panicked, nil_dereference,
}
use Prim.Native.String
use text.Mathlib.Text.{◌==◌}
use completer.Prelude.{◌==◌ as nat_eq}
use completer.Model.Datum.{
  BlobDatum, HttpReqDatum, HttpHeader, HttpMethod, unknown_method, get, head, post, put, delete,
  options, patch, Datum, http_resp, CompletionResult, new_internal_error_result, stage_failed,
  stage_timeout, invalid_stage_response, function_invoke_failed,
}
use completer.Blobs.{
  Store, Fetched, found, blob_not_found, read_failed, blob_datum_from_blob_store_blob,
}

pub record InvokeStageRequest : Type 0 where
  pub flow_id : String
  pub stage_id : ℕ
  pub function_id : String
  pub args : List CompletionResult
  pub closure : Option BlobDatum

pub record InvokeFunctionRequest : Type 0 where
  pub flow_id : String
  pub stage_id : ℕ
  pub function_id : String
  pub arg : HttpReqDatum

-- RuntimeInvokeStageRequest
pub record RuntimeRequest : Type 0 where
  pub flow_id : String
  pub stage_id : ℕ
  pub args : List CompletionResult
  pub closure : Option BlobDatum

pub record FaasInvocationResponse : Type 0 where
  pub flow_id : String
  pub stage_id : ℕ
  pub function_id : String
  pub result : CompletionResult
  pub call_id : String

pub record HttpRequest : Type 0 where
  pub method : String
  pub url : String
  pub headers : List (String × String)
  pub body : List ℕ

-- The header map, in the order in which it is ranged over; a body that cannot be read is `none`.
pub record HttpResponse : Type 0 where
  pub status_code : ℕ
  pub headers : List (String × List String)
  pub body : Option (List ℕ)

-- `new_request` says whether http.NewRequest accepts the method and the URL. `unmarshal` gives the
-- result that the response holds, if any.
pub record Backend : Type 0 where
  pub faas_addr : String
  pub new_request : (method url : String) → Bool
  pub client_do : HttpRequest → Option HttpResponse
  pub marshal : RuntimeRequest → Option (List ℕ)
  pub unmarshal : List ℕ → Option (Option CompletionResult)
  pub canonical : String → String

abbrev pub fn_call_id_header : String
fn_call_id_header = "Fn_call_id"

abbrev pub header_flow_id : String
header_flow_id = "Fnproject-FlowId"

abbrev pub header_stage_ref : String
header_stage_ref = "Fnproject-Stageid"

unfoldable pub successful_response : HttpResponse → Bool
successful_response r = leb 200 r.status_code && ltb r.status_code 400

module _ (b : Backend) where
  abbrev pub first_value : List String → String
  first_value [] = ""
  first_value (v ∷ vs) = v

  -- Header.Get: the first value of the key in canonical form, or the empty text.
  unfoldable pub header_get : String → List (String × List String) → String
  header_get key [] = ""
  header_get key ((k, vs) ∷ rest) =
      if k == b.canonical key then first_value vs else header_get key rest

  -- Header.Set and Header.Add of a request.
  unfoldable pub drop_header : String → List (String × String) → List (String × String)
  drop_header key [] = []
  drop_header key ((k, v) ∷ rest) =
      let others = drop_header key rest in if k == b.canonical key then others else (k, v) ∷ others

  abbrev pub set_header : String → String → List (String × String) → List (String × String)
  set_header key value headers = drop_header key headers ++ (b.canonical key, value) ∷ []

  abbrev pub add_header : String → String → List (String × String) → List (String × String)
  add_header key value headers = headers ++ (b.canonical key, value) ∷ []

  abbrev pub function_url : String → String
  function_url function_id = String.◌++◌ b.faas_addr (String.◌++◌ "/" function_id)

  abbrev pub stage_response :
      InvokeStageRequest → CompletionResult → String → FaasInvocationResponse
  stage_response msg result call_id = record {
    flow_id = msg.flow_id;
    stage_id = msg.stage_id;
    function_id = msg.function_id;
    result = result;
    call_id = call_id;
  }

  unfoldable pub stage_request : InvokeStageRequest → List ℕ → HttpRequest
  unfolding drop_header
  stage_request msg buf = record {
    method = "POST";
    url = function_url msg.function_id;
    headers =
        set_header header_stage_ref (itoa msg.stage_id)
          (set_header header_flow_id msg.flow_id (set_header "Content-type" "application/json" []));
    body = buf;
  }

  -- HandleInvokeStage behind the call of the client.
  unfoldable pub stage_reply : InvokeStageRequest → HttpResponse → FaasInvocationResponse
  unfolding successful_response header_get
  stage_reply msg resp =
      let call_id = header_get fn_call_id_header resp.headers in
      if not (successful_response resp)
      then (if nat_eq resp.status_code 504
          then stage_response msg (new_internal_error_result stage_timeout "stage timed out")
              call_id
          else stage_response msg
              (new_internal_error_result stage_failed (
                String.◌++◌ "Invalid http response from functions platform code "
                  (itoa resp.status_code)))
              call_id)
      else elim resp.body [
        | none ↦
            stage_response msg
              (new_internal_error_result invalid_stage_response
                "Failed to read result from functions service")
              call_id
        | some bytes ↦ elim (b.unmarshal bytes) [
          | none ↦
              stage_response msg
                (new_internal_error_result invalid_stage_response
                  "Failed to read result from functions service")
                call_id
          | some result ↦ elim result [
            | none ↦
                stage_response msg
                  (new_internal_error_result invalid_stage_response
                    "Empty result from functions service")
                  call_id
            | some r ↦ stage_response msg r call_id
          ]
        ]
      ]

  -- The error of http.NewRequest is dropped, and the request is then nil.
  unfoldable pub handle_invoke_stage : InvokeStageRequest → Outcome FaasInvocationResponse
  unfolding stage_request stage_reply
  handle_invoke_stage msg =
      elim (b.marshal (record {
        flow_id = msg.flow_id;
        stage_id = msg.stage_id;
        args = msg.args;
        closure = msg.closure;
      })) [
        | none ↦ done (
            stage_response msg
              (new_internal_error_result stage_failed
                "Could not marshal the runtime invoke stage request message.")
              "")
        | some buf ↦
            if not (b.new_request "POST" (function_url msg.function_id))
            then panicked nil_dereference
            else elim (b.client_do (stage_request msg buf)) [
              | none ↦ done (
                  stage_response msg
                    (new_internal_error_result stage_failed
                      "HTTP error on stage invocation: Can the flow service talk to the functions server?")
                    "")
              | some resp ↦ done (stage_reply msg resp)
            ]
      ]
