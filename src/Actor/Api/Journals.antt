-- ===== src/Actor/Api/Journals.antt =====
-- The journal of a flow, by the flow's ID (SubscribeGraphEvents, QueryGraphEvents and StreamNewEvents
-- of actor/api.go); `none` is the error of a flow ID that is not valid.
use completer.Prelude.{ℕ, String, List, Option, none, some, Bool, Panic}
use completer.Model.Event.{Event}
use completer.Sharding.{Uuid}
use completer.Persistence.Provider.{ProviderState}
use completer.Persistence.Streaming.{StreamEvent, BufferedSub, Step, subscribe}
use completer.Persistence.Streaming.Provider.{Streaming, query_actor_journal, stream_new_events}
use completer.Actor.Api.{graph_actor_path}

module _ {J : Type 0} (P : ProviderState Event J) (parse : String → Option Uuid)
    (shard_count : ℕ) where
  -- The subscription, for what is read and published while it reads, and published later.
  unfoldable pub subscribe_graph_events :
      (flow_id : String) (from_index : ℕ) (reading : List (Step Event))
      (later : List (StreamEvent Event))
      → Option (BufferedSub Event)
  unfolding graph_actor_path
  subscribe_graph_events flow_id from_index reading later =
      elim (graph_actor_path parse shard_count flow_id) [
        | none ↦ none
        | some path ↦ some (subscribe path from_index reading later)
      ]

  unfoldable pub query_graph_events :
      (flow_id : String) (from_index : ℕ) (predicate : StreamEvent Event → Bool)
      → Streaming Event J
      → Option (List (StreamEvent Event) × Option Panic)
  unfolding graph_actor_path
  query_graph_events flow_id from_index predicate s =
      elim (graph_actor_path parse shard_count flow_id) [
        | none ↦ none
        | some path ↦ some (query_actor_journal P predicate path from_index s)
      ]

  unfoldable pub stream_new_graph_events :
      (StreamEvent Event → Bool) → List (StreamEvent Event) → List (StreamEvent Event)
  unfolding stream_new_events
  stream_new_graph_events predicate published = stream_new_events P predicate published
