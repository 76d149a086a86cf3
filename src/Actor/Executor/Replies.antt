-- ===== src/Actor/Executor/Replies.antt =====
-- What the executor replies when it runs a stage, whatever the functions service does.
use completer.Prelude.{
  ℕ, ◌≤◌, ◌<◌, ◌≡◌, refl, ◌↔◌, inl, inr, String, List, none, some, true, false, arith, done,
  Bool-cases, Option-cases, ◌==◌,
}
use completer.Model.Datum.{CompletionResult, new_internal_error_result, stage_failed}
use completer.Actor.Executor.{
  Backend, InvokeStageRequest, FaasInvocationResponse, HttpResponse, RuntimeRequest,
  successful_response, function_url, stage_request, stage_reply, handle_invoke_stage,
  stage_response,
}

pub successful_response_iff :
    (r : HttpResponse)
    → (successful_response r ≡ true) ↔ ((200 ≤ r.status_code) × (r.status_code < 400))
unfolding successful_response
successful_response_iff r = (λ h. ground (arith, h), λ h. ground (arith, h))

module _ (b : Backend) where
  -- The request that the functions service is to be sent, before its encoding.
  abbrev pub runtime_request : InvokeStageRequest → RuntimeRequest
  runtime_request msg = record {
    flow_id = msg.flow_id;
    stage_id = msg.stage_id;
    args = msg.args;
    closure = msg.closure;
  }

  -- The response names the stage that was to run, and its result is a success only where the
  -- functions service said so.
  pub record StageReplied (msg : InvokeStageRequest) (r : FaasInvocationResponse) : Type 0 where
    pub same_flow : r.flow_id ≡ msg.flow_id
    pub same_stage : r.stage_id ≡ msg.stage_id
    pub same_function : r.function_id ≡ msg.function_id
    pub granted :
        r.result.successful ≡ true
        → (buf : List ℕ) × (resp : HttpResponse) × (bytes : List ℕ) × (b.marshal
              (runtime_request msg)
            ≡ some buf)
          × (b.client_do (stage_request b msg buf) ≡ some resp)
          × (200 ≤ resp.status_code)
          × (resp.status_code < 400)
          × (resp.body ≡ some bytes)
          × (b.unmarshal bytes ≡ some (some r.result))

  -- An error of the executor's own making.
  refused :
      (msg : InvokeStageRequest) (r : CompletionResult) (call_id : String)
      → r.successful ≡ false
      → StageReplied msg (stage_response b msg r call_id)
  refused msg r call_id h = record {
    same_flow = refl;
    same_stage = refl;
    same_function = refl;
    granted = λ q. absurd (ground (arith, h, q));
  }

  stage_reply-StageReplied :
      (msg : InvokeStageRequest) (buf : List ℕ) (resp : HttpResponse)
      → b.marshal (runtime_request msg) ≡ some buf
      → b.client_do (stage_request b msg buf) ≡ some resp
      → StageReplied msg (stage_reply b msg resp)
  unfolding stage_reply
  stage_reply-StageReplied msg buf resp m e = elim (Bool-cases (successful_response resp)) [
    | inr q ↦ elim (Bool-cases (resp.status_code == 504)) [
      | inl k ↦ rw (q, k, stage_reply) (refused msg _ _ refl)
      | inr k ↦ rw (q, k, stage_reply) (refused msg _ _ refl)
    ]
    | inl q ↦ elim (Option-cases resp.body) [
      | inl k ↦ rw (q, k, stage_reply) (refused msg _ _ refl)
      | inr (bytes, k) ↦ elim (Option-cases (b.unmarshal bytes)) [
        | inl u ↦ rw (q, k, u, stage_reply) (refused msg _ _ refl)
        | inr (none, u) ↦ rw (q, k, u, stage_reply) (refused msg _ _ refl)
        | inr (some r, u) ↦
            rw (q, k, u, stage_reply)
              (record {
                same_flow = refl;
                same_stage = refl;
                same_function = refl;
                granted = λ h.
                    let range = (successful_response_iff resp).0 q in
                    (buf, resp, bytes, m, e, range.0, range.1, k, u);
              })
      ]
    ]
  ]

  -- Whatever the functions service does, if the function's ID makes a URL that http.NewRequest
  -- accepts, HandleInvokeStage returns without a panic, and its response names the flow, the stage
  -- and the function that were asked for; its result is a success only if the service was called
  -- with the encoded request, which has the stage's ID, its arguments and its closure, and answered with a status from 200 to 399 and a body that holds this
  -- very result.
  pub handle_invoke_stage-StageReplied :
      (msg : InvokeStageRequest)
      → b.new_request "POST" (function_url b msg.function_id) ≡ true
      → (r : FaasInvocationResponse) × (handle_invoke_stage b msg ≡ done r) × StageReplied msg r
  unfolding handle_invoke_stage
  handle_invoke_stage-StageReplied msg valid =
      elim (Option-cases (b.marshal (runtime_request msg))) [
        | inl m ↦ (
          stage_response b msg
              (new_internal_error_result stage_failed
                "Could not marshal the runtime invoke stage request message.")
              "",
          rw (m, handle_invoke_stage),
          refused msg _ _ refl,
        )
        | inr (buf, m) ↦ elim (Option-cases (b.client_do (stage_request b msg buf))) [
          | inl c ↦ (
            stage_response b msg
                (new_internal_error_result stage_failed
                  "HTTP error on stage invocation: Can the flow service talk to the functions server?")
                "",
            rw (m, valid, c, handle_invoke_stage),
            refused msg _ _ refl,
          )
          | inr (resp, c) ↦ (
            stage_reply b msg resp,
            rw (m, valid, c, handle_invoke_stage),
            stage_reply-StageReplied msg buf resp m c,
          )
        ]
      ]
