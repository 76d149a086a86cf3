-- ===== src/Actor/Api/Streams/Lifecycle.antt =====
-- The stream of lifecycle events, and which actors' events are in it.
use Prim.Native.String
use mathlib.Core.List.{Sublist, append-nil}
use mathlib.Core.List.Sublist
use completer.Prelude.{
  ℕ, ◌≤◌, ◌≡◌, String, List, [], ◌∷◌, ◌++◌, length, Option, some, Bool, true, false, ◌&&◌, ◌||◌,
  inl, inr, Bool-cases, arith, contains, itoa, contains-append, contains-itoa,
}
use completer.Sharding.{Uuid, shard_id}
use completer.Model.Event.{Event}
use completer.Model.Stream.{is_lifecycle_source}
use completer.Persistence.Streaming.{StreamEvent}
use completer.Actor.Api.{event_buffer_size, supervisor_name, graph_actor_path}
use completer.Actor.Api.Streams.{
  LifecycleStream, LifecycleReach, on_lifecycle_event, send_lifecycle, is_graph_lifecycle_event,
  has_room,
}
use completer.Actor.Api.Streams.Buffering.{
  IsKept, IsKept-buffer, IsKept-skip, IsKept-send, IsKept-drop,
}
use completer.Actor.Api.Streams.Invariant.{lifecycle_events, lifecycle_events-append}

IsKept-on_lifecycle_event :
    (es : List (String × StreamEvent Event)) (flow_id : String) (e : StreamEvent Event)
    (s : LifecycleStream)
    → IsKept s.sent s.buffer (lifecycle_events es)
    → IsKept
        (on_lifecycle_event flow_id e s).sent
        (on_lifecycle_event flow_id e s).buffer
        (lifecycle_events (es ++ (flow_id, e) ∷ []))
unfolding on_lifecycle_event
IsKept-on_lifecycle_event es flow_id e s k =
    rw (lifecycle_events-append es ((flow_id, e) ∷ []))
      (elim (Bool-cases (is_graph_lifecycle_event e)) [
        | inr q ↦ rw q (rw (append-nil (lifecycle_events es)) k)
        | inl q ↦ elim (Bool-cases (has_room s.buffer)) [
          | inl b ↦ rw (q, b) (IsKept-buffer s.sent s.buffer _ _ b k)
          | inr b ↦ rw (q, b) (IsKept-skip s.sent s.buffer _ _ k)
        ]
      ])

-- In every state of a stream of lifecycle events, at most a thousand events wait to be sent, and
-- those that were sent or wait are some of the lifecycle events among the events of the callbacks,
-- in their order, each with its index and the ID of its own flow.
pub LifecycleReach-IsKept :
    {es : List (String × StreamEvent Event)} {s : LifecycleStream}
    → LifecycleReach es s
    → (length s.buffer ≤ event_buffer_size) × Sublist (s.sent ++ s.buffer) (lifecycle_events es)
unfolding send_lifecycle
LifecycleReach-IsKept LifecycleReach.start = (omega arith, Sublist.refl [])
LifecycleReach-IsKept (LifecycleReach.called_back {es} {s} flow_id e r q) =
    IsKept-on_lifecycle_event es flow_id e s (LifecycleReach-IsKept r)
LifecycleReach-IsKept (LifecycleReach.taken {s} true e rest r q b) =
    IsKept-send s.sent rest s.buffer _ e b (LifecycleReach-IsKept r)
LifecycleReach-IsKept (LifecycleReach.taken {s} false e rest r q b) =
    IsKept-drop s.sent rest s.buffer _ e b (LifecycleReach-IsKept r)
LifecycleReach-IsKept (LifecycleReach.client_closed r q) = LifecycleReach-IsKept r

||-true : (a : Bool) → (a || true) ≡ true
||-true a = ground arith

&&-true : (a : Bool) → (a && true) ≡ a
&&-true a = ground arith

&&-false : (a : Bool) → (a && false) ≡ false
&&-false a = ground arith

contains-supervisor_name : (shard : ℕ) → contains 47 (supervisor_name shard) ≡ false
unfolding contains supervisor_name
contains-supervisor_name shard =
    rw
      (
        contains-append 47 "supervisor" (String.◌++◌ "-" (itoa shard)),
        contains-append 47 "-" (itoa shard),
      )
      (contains-itoa 47 shard (omega arith))

contains_slash : (s t : String) → contains 47 (String.◌++◌ s (String.◌++◌ "/" t)) ≡ true
unfolding contains
contains_slash s t =
    rw (contains-append 47 s (String.◌++◌ "/" t), contains-append 47 "/" t)
      (||-true (contains 47 s))

module _ (parse : String → Option Uuid) (shard_count : ℕ) where
  -- Of the events that a graph actor's path and its supervisor's name stand on, the lifecycle stream
  -- has those of the graph actor that are lifecycle events, and none of the supervisor's.
  pub is_graph_lifecycle_event-graph_actor_path :
      (flow_id path : String) (shard index : ℕ) (e : Event)
      → shard_id parse shard_count flow_id ≡ some shard
      → graph_actor_path parse shard_count flow_id ≡ some path
      → (is_graph_lifecycle_event (record { actor_name = path; event_index = index; event = e })
          ≡ is_lifecycle_source e)
        × (is_graph_lifecycle_event
              (record { actor_name = supervisor_name shard; event_index = index; event = e })
            ≡ false)
  unfolding is_graph_lifecycle_event graph_actor_path supervisor_name
  is_graph_lifecycle_event-graph_actor_path flow_id path shard index e h p = (
    rw (path_lem, contains_slash (supervisor_name shard) flow_id) (&&-true (is_lifecycle_source e)),
    rw (contains-supervisor_name shard) (&&-false (is_lifecycle_source e)),
  )
    where
      path_lem : path ≡ String.◌++◌ (supervisor_name shard) (String.◌++◌ "/" flow_id)
      path_lem = ground (arith, h, p)
