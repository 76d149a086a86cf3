-- ===== src/Actor/Executor/Functions.antt =====
-- HandleInvokeFunction of the executor (actor/executor.go), which calls a function and keeps what it
-- answers in the blob store.
use completer.Prelude.{ℕ, String, List, [], ◌∷◌, ◌++◌, map, Option, none, some, not, if◌then◌else◌}
use text.Mathlib.Text.{◌==◌}
use completer.Model.Datum.{
  HttpHeader, HttpMethod, unknown_method, get, head, post, put, delete, options, patch, http_resp,
  CompletionResult, new_internal_error_result, function_invoke_failed,
}
use completer.Blobs.{Store, found, blob_not_found, read_failed, blob_datum_from_blob_store_blob}
use completer.Actor.Executor.{
  InvokeFunctionRequest, FaasInvocationResponse, HttpRequest, HttpResponse, Backend,
  fn_call_id_header, successful_response, header_get, drop_header, set_header, add_header,
  function_url,
}

-- The name of a method in upper case.
unfoldable pub method_name : HttpMethod → String
method_name unknown_method = "UNKNOWN_METHOD"
method_name get = "GET"
method_name head = "HEAD"
method_name post = "POST"
method_name put = "PUT"
method_name delete = "DELETE"
method_name options = "OPTIONS"
method_name patch = "PATCH"

module _ (b : Backend) where
  abbrev pub function_response :
      InvokeFunctionRequest → CompletionResult → String → FaasInvocationResponse
  function_response msg result call_id = record {
    flow_id = msg.flow_id;
    stage_id = msg.stage_id;
    function_id = msg.function_id;
    result = result;
    call_id = call_id;
  }

  abbrev pub invoke_failed :
      InvokeFunctionRequest → (message call_id : String) → FaasInvocationResponse
  invoke_failed msg message call_id =
      function_response msg (new_internal_error_result function_invoke_failed message) call_id

  abbrev pub values_of : String → List String → List HttpHeader
  values_of name = map (λ v. record { key = name; value = v })

  -- The headers of the response, without the content type.
  unfoldable pub response_headers : List (String × List String) → List HttpHeader
  response_headers [] = []
  response_headers ((name, values) ∷ rest) =
      let others = response_headers rest in
      if b.canonical name == "Content-Type" then others else values_of name values ++ others

  unfoldable pub content_type_of : List (String × List String) → String
  unfolding header_get
  content_type_of headers =
      let given = header_get b "Content-type" headers in
      if given == "" then "application/octet-stream" else given

  unfoldable pub add_headers : List HttpHeader → List (String × String) → List (String × String)
  add_headers [] headers = headers
  add_headers (h ∷ hs) headers = add_headers hs (add_header b h.key h.value headers)

  unfoldable pub function_request : InvokeFunctionRequest → List ℕ → HttpRequest
  unfolding method_name add_headers drop_header
  function_request msg bytes = record {
    method = method_name msg.arg.method;
    url = function_url b msg.function_id;
    headers = add_headers msg.arg.headers (elim msg.arg.body [
      | none ↦ []
      | some blob ↦ set_header b "Content-Type" blob.content_type []
    ]);
    body = bytes;
  }

  module _ {S : Type 0} (store : Store S) where
    -- HandleInvokeFunction behind the call of the client: the body is stored as a blob.
    unfoldable pub function_reply :
        InvokeFunctionRequest → HttpResponse → S → FaasInvocationResponse × S
    unfolding successful_response header_get content_type_of response_headers
        blob_datum_from_blob_store_blob
    function_reply msg resp s =
        let call_id = header_get b fn_call_id_header resp.headers in
        let (blob, t) = store.create msg.flow_id (content_type_of resp.headers) resp.body s in
        (
          elim blob [
            | none ↦ invoke_failed msg "Failed to persist HTTP response data" call_id
            | some stored ↦
                function_response msg
                  (record {
                    successful = successful_response resp;
                    datum = http_resp (record {
                      body = some (blob_datum_from_blob_store_blob stored);
                      headers = response_headers resp.headers;
                      status_code = resp.status_code;
                    });
                  })
                  call_id
          ],
          t,
        )

    -- The bytes of the argument's body, if they can be read.
    unfoldable pub argument_bytes : InvokeFunctionRequest → S → Option (List ℕ)
    argument_bytes msg s = elim msg.arg.body [
      | none ↦ some []
      | some blob ↦ elim (store.read msg.flow_id blob.blob_id s) [
        | found bytes ↦ some bytes
        | blob_not_found ↦ none
        | read_failed ↦ none
      ]
    ]

    unfoldable pub handle_invoke_function : InvokeFunctionRequest → S → FaasInvocationResponse × S
    unfolding function_request function_reply argument_bytes method_name
    handle_invoke_function msg s = elim (argument_bytes msg s) [
      | none ↦ (invoke_failed msg "Failed to read data for invocation" "", s)
      | some bytes ↦
          if not (b.new_request (method_name msg.arg.method) (function_url b msg.function_id))
          then (invoke_failed msg "Failed to create HTTP request" "", s)
          else elim (b.client_do (function_request msg bytes)) [
            | none ↦ (invoke_failed msg "Failed to call function" "", s)
            | some resp ↦ function_reply msg resp s
          ]
    ]
