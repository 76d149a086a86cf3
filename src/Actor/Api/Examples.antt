-- ===== src/Actor/Api/Examples.antt =====
-- The calls of the service applied to one flow on two nodes with four shards.
use completer.Prelude.{
  ◌+◌, ◌*◌, ◌^◌, ◌≡◌, refl, String, [], ◌∷◌, Option, some, true, ◌==◌, if◌then◌else◌, arith,
}
use completer.Sharding.{Uuid, shard_id}
use completer.Cluster.{Settings, resolve_node}
use completer.Model.Command.{graph_not_found, Command}
use completer.Actor.State.{respond_added}
use completer.Actor.Commands.Answers.{accepts}
use completer.Actor.Api.{
  supervisor_name, err, flow_error, FutureResult, reply, future_result, forward_request,
}
use completer.Actor.Api.Calls.{Call, call}
use completer.Actor.Api.Forwarding.{node_supervisors, forward_request-node_supervisors}
use completer.Actor.Api.Replies.{reply_of, call_of, outcome, call-outcome}
use completer.Actor.Api.Await.{
  await_deadline, earlier, min, max_timeout_ever, await_deadline-earlier,
}

-- A parser that knows one UUID, of shard 3.
abbrev parse_one : String → Option Uuid
parse_one s = some (record {
  first = 0 ∷ 0 ∷ 0 ∷ 0 ∷ 0 ∷ 0 ∷ 0 ∷ 5 ∷ [];
  last = 0 ∷ 0 ∷ 0 ∷ 0 ∷ 0 ∷ 0 ∷ 1 ∷ 2 ∷ [];
})

abbrev settings : Settings
settings = record { node_count = 2; node_id = 0 }

shard_known : shard_id parse_one 4 "flow" ≡ some 3
unfolding shard_id
shard_known = refl

node_known : resolve_node parse_one 4 settings "flow" ≡ some 1
unfolding resolve_node shard_id
node_known = refl

-- A supervisor that replies its own name.
abbrev ask_name : String → FutureResult String
ask_name name = reply name

forward_request-node_supervisors_example :
    forward_request parse_one 4 (node_supervisors parse_one 4 settings 1) ask_name "flow" ≡ (
      if 1 == 1
      then future_result (ask_name (supervisor_name 3))
      else err (flow_error graph_not_found))
forward_request-node_supervisors_example =
    forward_request-node_supervisors parse_one 4 settings ask_name "flow" 3 1 1 (omega arith)
      (omega arith) shard_known node_known

added_accepted : accepts (Command.add_delay_stage 5) (respond_added 7 ∷ []) ≡ true
unfolding accepts
added_accepted = refl

delay_called : call_of (Command.add_delay_stage 5) ≡ some Call.add_delay
unfolding call_of
delay_called = refl

call-outcome_example :
    call parse_one 4
      (node_supervisors parse_one 4 settings 1)
      Call.add_delay
      (λ name. reply_of (respond_added 7))
      "flow"
    ≡ outcome Call.add_delay (
        forward_request parse_one 4
          (node_supervisors parse_one 4 settings 1)
          (λ name. reply_of (respond_added 7))
          "flow")
call-outcome_example =
    call-outcome parse_one 4 (node_supervisors parse_one 4 settings 1) (Command.add_delay_stage 5)
      (respond_added 7) Call.add_delay "flow" added_accepted delay_called

await_deadline-earlier_example :
    await_deadline 1000 1005 20 (some 9000)
    ≡ some (earlier (some 9000) (1005 + min (20 * 10 ^ 6) max_timeout_ever))
await_deadline-earlier_example =
    await_deadline-earlier 1000 1005 20 (some 9000) (omega arith) (omega arith)
