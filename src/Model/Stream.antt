-- ===== src/Model/Stream.antt =====
-- The events of the streams that a client subscribes to, and how those of the journals are turned
-- into them (GraphLifecycleEventSource and StreamableGraphEvent of model/mixins.go). An index is not
-- negative. `flow_id` is the ID of the flow that the event carries.
use completer.Prelude.{ℕ, ◌^◌, ◌%◌, String, Bool, true, false}
use completer.Model.Event.{Event, graph_created, graph_completed}

-- The type assertion to GraphLifecycleEventSource.
unfoldable pub is_lifecycle_source : Event → Bool
is_lifecycle_source (graph_created f function_id) = true
is_lifecycle_source graph_completed = true
is_lifecycle_source _ = false

abbrev pub uint64 : (index : ℕ) → ℕ
uint64 index = index % 2 ^ 64

-- GetFlowId
abbrev pub event_flow_id : (flow_id : String) → Event → String
event_flow_id flow_id (graph_created f function_id) = f
event_flow_id flow_id _ = flow_id

-- GraphLifecycleEvent of model.proto.
pub record GraphLifecycleEvent : Type 0 where
  pub flow_id : String
  pub seq : ℕ
  pub val : Event

-- The method GraphLifecycleEvent of its sources.
unfoldable pub graph_lifecycle_event :
    (flow_id : String) → Event → (index : ℕ) → GraphLifecycleEvent
graph_lifecycle_event flow_id e index = record {
  flow_id = event_flow_id flow_id e;
  seq = uint64 index;
  val = e;
}

-- GraphStreamEvent of model.proto, without its time of sending.
pub record GraphStreamEvent : Type 0 where
  pub flow_id : String
  pub seq : ℕ
  pub val : Event

-- ToGraphStreamEvent
unfoldable pub to_graph_stream_event : (flow_id : String) → Event → (index : ℕ) → GraphStreamEvent
to_graph_stream_event flow_id e index = record {
  flow_id = event_flow_id flow_id e;
  seq = uint64 index;
  val = e;
}
