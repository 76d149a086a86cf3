-- ===== src/Model/Event.antt =====
-- The events of a flow's journal (model/model.pb.go). The time stamps, code locations and caller
-- IDs that the events carry are read by nothing that is modelled, and are left out.
use completer.Prelude.{ℕ, String, List, Option}
use completer.Model.Datum.{BlobDatum, CompletionResult, StatusDatumType}

pub data CompletionOperation : Type 0 where
  unknown_operation accept_either apply_to_either then_accept_both : CompletionOperation
  then_apply then_run then_accept then_compose then_combine : CompletionOperation
  when_complete handle supply invoke_function completed_value delay : CompletionOperation
  all_of any_of external_completion exceptionally termination_hook : CompletionOperation
  exceptionally_compose : CompletionOperation

pub record StageAdded : Type 0 where
  pub stage_id : ℕ
  pub op : CompletionOperation
  pub closure : Option BlobDatum
  pub dependencies : List ℕ

pub data Event : Type 0 where
  graph_created : (flow_id function_id : String) → Event
  graph_committed : Event
  graph_terminating : StatusDatumType → Event
  graph_completed : Event
  delay_scheduled : (stage_id time_ms : ℕ) → Event
  stage_added : StageAdded → Event
  stage_completed : (stage_id : ℕ) → CompletionResult → Event
  stage_composed : (stage_id composed_stage_id : ℕ) → Event
  faas_invocation_started : (stage_id : ℕ) (function_id : String) → Event
  faas_invocation_completed : (stage_id : ℕ) → CompletionResult → (call_id : String) → Event
