-- ===== src/Actor/Api/Replies.antt =====
-- What the calls make of the replies that a flow's actor gives (actor/api.go, actor/graph.go).
use completer.Prelude.{
  ℕ, ◌≡◌, refl, inl, inr, ◌⊎◌, String, List, [], ◌∷◌, Option, none, some, Bool, true, false, ◌&&◌,
  if◌then◌else◌,
}
use completer.Model.Command.{Command, FlowError}
use completer.Sharding.{Uuid}
use completer.Actor.State.{
  Message, respond_error, respond_created, respond_state, respond_added,
  respond_completed_externally, respond_processed, await_future,
}
use completer.Actor.Commands.Answers.{accepts}
use completer.Actor.Api.{
  Result, ok, err, FutureResult, reply, reply_error, failed, flow_error, ApiError, future_result,
  forward_request, lookup_supervisor,
}
use completer.Actor.Api.Calls.{
  Response, create_graph_response, get_graph_state_response, add_stage_response,
  await_stage_result_response, complete_stage_externally_response, graph_request_processed_response,
  Called, returned, type_assertion_failed, Call, complete_stage_externally, has_type, assert_type,
  respond, call,
}

-- What the future of a request comes to by a reply of the flow's actor.
unfoldable pub reply_of : Message → FutureResult Response
reply_of (respond_error e) = reply_error e
reply_of (respond_created f) = reply (create_graph_response f)
reply_of (respond_state ss) = reply (get_graph_state_response ss)
reply_of (respond_added i) = reply (add_stage_response i)
reply_of (respond_completed_externally i b) = reply (complete_stage_externally_response i b)
reply_of respond_processed = reply graph_request_processed_response
reply_of (await_future i) = reply (await_stage_result_response i)
reply_of _ = failed

-- The call that sends a command.
unfoldable pub call_of : Command → Option Call
call_of (Command.create_graph f) = some Call.create_graph
call_of Command.get_graph_state = some Call.get_graph_state
call_of (Command.add_stage m) = some Call.add_stage
call_of (Command.add_completed_value_stage v) = some Call.add_value_stage
call_of (Command.add_delay_stage ms) = some Call.add_delay
call_of (Command.add_invoke_function_stage f arg) = some Call.add_invoke_function
call_of (Command.complete_stage_externally i v) = some Call.complete_stage_externally
call_of Command.commit_graph = some Call.commit
call_of (Command.await_stage_result i) = some Call.await_stage_result
call_of _ = none

abbrev HasType : Call → Message → Type 0
HasType k m =
    ((e : FlowError) × (reply_of m ≡ reply_error e))
    ⊎ ((r : Response) × (reply_of m ≡ reply r) × (has_type k r ≡ some r))

accepts-HasType :
    (c : Command) (m : Message) (k : Call)
    → accepts c (m ∷ []) ≡ true
    → call_of c ≡ some k
    → HasType k m
unfolding accepts call_of reply_of has_type
accepts-HasType c (respond_error e) k h q = inl (e, refl)
accepts-HasType (Command.create_graph f) (respond_created g) k h q = inr (_, refl, cc)
accepts-HasType (Command.create_graph f) _ k h q = absurd (cc)
accepts-HasType Command.get_graph_state (respond_state ss) k h q = inr (_, refl, cc)
accepts-HasType Command.get_graph_state _ k h q = absurd (cc)
accepts-HasType (Command.add_stage a) (respond_added i) k h q = inr (_, refl, cc)
accepts-HasType (Command.add_stage a) _ k h q = absurd (cc)
accepts-HasType (Command.add_completed_value_stage v) (respond_added i) k h q = inr (_, refl, cc)
accepts-HasType (Command.add_completed_value_stage v) _ k h q = absurd (cc)
accepts-HasType (Command.add_delay_stage ms) (respond_added i) k h q = inr (_, refl, cc)
accepts-HasType (Command.add_delay_stage ms) _ k h q = absurd (cc)
accepts-HasType (Command.add_invoke_function_stage f arg) (respond_added i) k h q =
    inr (_, refl, cc)
accepts-HasType (Command.add_invoke_function_stage f arg) _ k h q = absurd (cc)
accepts-HasType (Command.complete_stage_externally i v) (respond_completed_externally j b) k h q =
    inr (_, refl, cc)
accepts-HasType (Command.complete_stage_externally i v) _ k h q = absurd (cc)
accepts-HasType Command.commit_graph respond_processed k h q = inr (_, refl, cc)
accepts-HasType Command.commit_graph _ k h q = absurd (cc)
accepts-HasType (Command.await_stage_result i) (await_future j) k h q = inr (_, refl, cc)
accepts-HasType (Command.await_stage_result i) _ k h q = absurd (cc)
accepts-HasType _ _ k h q = absurd (cc)

unfoldable pub is_external : Call → Bool
is_external complete_stage_externally = true
is_external _ = false

abbrev pub is_err : {A : Type 0} → Result A → Bool
is_err (ok a) = false
is_err (err e) = true

-- What a call is to come to.
abbrev pub outcome : Call → Result Response → Called
outcome k r = if is_external k && is_err r then type_assertion_failed else returned r

respond-err : (k : Call) (e : ApiError) → respond k (err e) ≡ outcome k (err e)
unfolding respond is_external
respond-err complete_stage_externally e = refl
respond-err _ e = refl

respond-ok : (k : Call) (r : Response) → has_type k r ≡ some r → respond k (ok r) ≡ outcome k (ok r)
unfolding respond is_external
respond-ok complete_stage_externally r h = rw (h, assert_type) refl
respond-ok _ r h = rw (h, assert_type) refl

respond-HasType :
    (k : Call) (m : Message)
    → HasType k m
    → respond k (future_result (reply_of m)) ≡ outcome k (future_result (reply_of m))
respond-HasType k m (inl (e, q)) = rw q (respond-err k (flow_error e))
respond-HasType k m (inr (r, q, h)) = rw q (respond-ok k r h)

module _ (parse : String → Option Uuid) (shard_count : ℕ) (supervisors : List (ℕ × String)) where
  -- Where the supervisor that a call asks, if it finds one, has the flow's actor reply, and the
  -- reply is one that the command accepts: the call returns the reply's response or error, or the
  -- error that no supervisor was found, and its type assertion holds; except that the call that
  -- completes a stage externally panics on every error.
  pub call-outcome :
      (c : Command) (m : Message) (k : Call) (flow_id : String)
      → accepts c (m ∷ []) ≡ true
      → call_of c ≡ some k
      → call parse shard_count supervisors k (λ name. reply_of m) flow_id
        ≡ outcome k (forward_request parse shard_count supervisors (λ name. reply_of m) flow_id)
  unfolding call forward_request
  call-outcome c m k flow_id h q =
      by_lookup (lookup_supervisor parse shard_count supervisors flow_id)
    where
      by_lookup :
          (o : Result String)
          → respond k (elim o [ err e ↦ err e | ok name ↦ future_result (reply_of m) ])
            ≡ outcome k (elim o [ err e ↦ err e | ok name ↦ future_result (reply_of m) ])
      by_lookup (err e) = respond-err k e
      by_lookup (ok name) = respond-HasType k m (accepts-HasType c m k h q)
