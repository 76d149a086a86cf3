-- ===== src/Actor/Executor/FunctionReplies.antt =====
-- What the executor replies when it calls a function, whatever the functions service does.
use completer.Prelude.{
  ℕ, ◌≤◌, ◌<◌, ◌≡◌, refl, ◌↔◌, ◌⊎◌, inl, inr, String, List, some, true, false, length, Bool-cases,
  Option-cases,
}
use completer.Model.Datum.{BlobDatum, http_resp, error, CompletionResult, ErrorDatum}
use completer.Blobs.{Store, found, blob_datum_from_blob_store_blob}
use completer.Blobs.Contract.{IsBlobStore}
use completer.Actor.Executor.{
  Backend, InvokeFunctionRequest, FaasInvocationResponse, HttpRequest, HttpResponse, function_url,
}
use completer.Actor.Executor.Functions.{
  function_request, function_reply, argument_bytes, handle_invoke_function, method_name,
  response_headers, invoke_failed, content_type_of,
}
use completer.Actor.Executor.Replies.{successful_response_iff}

module _ (b : Backend) {S : Type 0} (store : Store S) where
  -- A result that is an HTTP response of the service, whose body can be read from the store.
  pub record Responded (r : CompletionResult) (t : S) : Type 0 where
    pub request : HttpRequest
    pub response : HttpResponse
    pub bytes : List ℕ
    pub stored : BlobDatum
    pub answered : b.client_do request ≡ some response
    pub read : response.body ≡ some bytes
    pub datum :
        r.datum
        ≡ http_resp (record {
          body = some stored;
          headers = response_headers b response.headers;
          status_code = response.status_code;
        })
    pub same_length : stored.length ≡ length bytes
    pub same_type : stored.content_type ≡ content_type_of b response.headers
    pub read_back : (prefix : String) → store.read prefix stored.blob_id t ≡ found bytes
    pub successful :
        (r.successful ≡ true) ↔ ((200 ≤ response.status_code) × (response.status_code < 400))

  -- An unsuccessful result with an error of the executor's own making.
  abbrev pub Failed : CompletionResult → Type 0
  Failed r = (r.successful ≡ false) × ((e : ErrorDatum) × (r.datum ≡ error e))

  pub record FunctionReplied (IsValid : S → Type 0) (msg : InvokeFunctionRequest)
      (r : FaasInvocationResponse) (s t : S) : Type 0 where
    pub same_flow : r.flow_id ≡ msg.flow_id
    pub same_stage : r.stage_id ≡ msg.stage_id
    pub same_function : r.function_id ≡ msg.function_id
    pub outcome : Failed r.result ⊎ Responded r.result t
    pub valid : IsValid t
    pub kept :
        (prefix id : String) (c : List ℕ)
        → store.read prefix id s ≡ found c
        → store.read prefix id t ≡ found c

  module _ (IsValid : S → Type 0) (contract : IsBlobStore store IsValid) where
    failed :
        (msg : InvokeFunctionRequest) (message call_id : String) (s : S)
        → IsValid s
        → FunctionReplied IsValid msg (invoke_failed b msg message call_id) s s
    failed msg message call_id s v = record {
      same_flow = refl;
      same_stage = refl;
      same_function = refl;
      outcome = inl (refl, (_, refl));
      valid = v;
      kept = λ prefix id c h. h;
    }

    function_reply-FunctionReplied :
        (msg : InvokeFunctionRequest) (req : HttpRequest) (resp : HttpResponse) (s : S)
        → IsValid s
        → b.client_do req ≡ some resp
        → FunctionReplied IsValid msg
            (function_reply b store msg resp s).0
            s
            (function_reply b store msg resp s).1
    unfolding function_reply
    function_reply-FunctionReplied msg req resp s v e =
        let made = store.create msg.flow_id (content_type_of b resp.headers) resp.body s in
        let keeps = contract.keeps msg.flow_id (content_type_of b resp.headers) resp.body s v in
        let preserves = λ (prefix id : String) (c : List ℕ).
          contract.preserves msg.flow_id (content_type_of b resp.headers) resp.body s prefix id c
            v in
        elim (Option-cases made.0) [
          | inl n ↦
              rw (n, function_reply)
                (record {
                  same_flow = refl;
                  same_stage = refl;
                  same_function = refl;
                  outcome = inl (refl, (_, refl));
                  valid = keeps;
                  kept = preserves;
                })
          | inr (blob, n) ↦
              let (bytes, given, ty, size, free, back) =
                contract.creates msg.flow_id (content_type_of b resp.headers) resp.body s blob v
                  n in
              rw (n, function_reply)
                (record {
                  same_flow = refl;
                  same_stage = refl;
                  same_function = refl;
                  outcome = inr (record {
                    request = req;
                    response = resp;
                    bytes = bytes;
                    stored = blob_datum_from_blob_store_blob blob;
                    answered = e;
                    read = given;
                    datum = refl;
                    same_length = size;
                    same_type = ty;
                    read_back = back;
                    successful = successful_response_iff resp;
                  });
                  valid = keeps;
                  kept = preserves;
                })
        ]

    -- Whatever the functions service does, over a blob store that keeps its promise,
    -- HandleInvokeFunction replies for the flow, the stage and the function that were asked for,
    -- either with an unsuccessful error result, or with the service's response, successful just for
    -- a status from 200 to 399, whose body can be read back from the store under the result's blob
    -- ID and has the length and the content type given; the store stays valid, and every blob that
    -- could be read before is read unchanged.
    pub handle_invoke_function-FunctionReplied :
        (msg : InvokeFunctionRequest) (s : S)
        → IsValid s
        → FunctionReplied IsValid msg
            (handle_invoke_function b store msg s).0
            s
            (handle_invoke_function b store msg s).1
    unfolding handle_invoke_function
    handle_invoke_function-FunctionReplied msg s v =
        elim (Option-cases (argument_bytes b store msg s)) [
          | inl n ↦ rw (n, handle_invoke_function) (failed msg _ "" s v)
          | inr (bytes, n) ↦
              elim (Bool-cases
                (b.new_request (method_name msg.arg.method) (function_url b msg.function_id))) [
                  | inr q ↦ rw (n, q, handle_invoke_function) (failed msg _ "" s v)
                  | inl q ↦ elim (Option-cases (b.client_do (function_request b msg bytes))) [
                    | inl c ↦ rw (n, q, c, handle_invoke_function) (failed msg _ "" s v)
                    | inr (resp, c) ↦
                        rw (n, q, c, handle_invoke_function)
                          (function_reply-FunctionReplied msg (function_request b msg bytes) resp s
                            v c)
                  ]
                ]
        ]
