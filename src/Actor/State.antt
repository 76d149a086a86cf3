-- ===== src/Actor/State.antt =====
-- The state of a graph actor (actor/graph.go): its graph, once it is created, its persistence
-- mixin, and the messages that it has sent, in order.
use completer.Prelude.{
  ℕ, String, List, [], ◌∷◌, ◌++◌, ◌≡◌, refl, Option, Bool, true, false, if◌then◌else◌, All, arith,
}
use completer.Model.Datum.{BlobDatum, HttpReqDatum, CompletionResult}
use completer.Model.Event.{CompletionOperation}
use completer.Model.Command.{FlowError}
use completer.Graph.Stage.{CompletionGraph}
use completer.Persistence.Mixin.{Mixin}

pub data Status : Type 0 where
  failed successful running pending : Status

pub record StageRepresentation : Type 0 where
  pub id : ℕ
  pub type : CompletionOperation
  pub status : Status
  pub dependencies : List (Option ℕ)

-- The commitTimeout, completionTimeout and readTimeout.
pub data Timeout : Type 0 where
  commit_timeout completion_timeout read_timeout : Timeout

-- What the actor sends or asks of its context. The reply to a request that awaits a stage is sent
-- by the actor system when the stage's future is resolved.
pub data Message : Type 0 where
  respond_error : FlowError → Message
  respond_created : (flow_id : String) → Message
  respond_state : List StageRepresentation → Message
  respond_added : (stage_id : ℕ) → Message
  respond_completed_externally : (stage_id : ℕ) → (successful : Bool) → Message
  respond_processed : Message
  await_future : (stage_id : ℕ) → Message
  invoke_stage :
      (function_id : String) (stage_id : ℕ) (args : List CompletionResult)
      (closure : Option BlobDatum)
      → Message
  invoke_function : (stage_id : ℕ) (function_id : String) (arg : HttpReqDatum) → Message
  complete_delay : (stage_id : ℕ) (after_ms : ℕ) → Message
  deactivate_self deactivate_parent : Message
  set_receive_timeout : Timeout → Message
  graceful_stop : Message

-- Whether a message answers the request that the actor handles, now or when a future is resolved.
abbrev pub is_reply : Message → Bool
is_reply (respond_error e) = true
is_reply (respond_created f) = true
is_reply (respond_state ss) = true
is_reply (respond_added i) = true
is_reply (respond_completed_externally i b) = true
is_reply respond_processed = true
is_reply (await_future i) = true
is_reply _ = false

abbrev pub replies : List Message → List Message
replies [] = []
replies (m ∷ ms) = if is_reply m then m ∷ replies ms else replies ms

pub replies-append : (ms ns : List Message) → replies (ms ++ ns) ≡ replies ms ++ replies ns
replies-append [] ns = refl
replies-append (m ∷ ms) ns = ground (arith, replies-append ms ns)

abbrev pub IsQuiet : List Message → Type 0
IsQuiet = All (λ m. is_reply m ≡ false)

pub replies-IsQuiet : (ms : List Message) → IsQuiet ms → replies ms ≡ []
replies-IsQuiet [] q = refl
replies-IsQuiet (m ∷ ms) q = rw (q.0) (replies-IsQuiet ms q.1)

pub record Host (J : Type 0) : Type 0 where
  pub mixin : Mixin J
  pub sent : List Message

pub record GraphActor (J : Type 0) : Type 0 where
  pub graph : Option CompletionGraph
  pub host : Host J

abbrev pub send : {J : Type 0} → Message → Host J → Host J
send m h = record h { sent = h.sent ++ m ∷ [] }
