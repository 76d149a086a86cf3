-- ===== src/Actor/Supervisor.antt =====
-- The supervisor of a shard's graph actors (actor/supervisor.go). Its children are the names of the
-- actors it has spawned; `spawn` stands for the actor system's SpawnNamed and gives false for its
-- error, and `persists` for PersistReceive over the journal, which may panic, and gives false then.
-- Such a panic ends the handler and leaves the instance as it is by then, which a restart
-- uses again (FromInstance in actor/api.go); the replay of such a restart is not modelled. The events
-- that are journaled carry a flow's ID only.
pub mod Recovery
use completer.Prelude.{
  ℕ, suc, ◌+◌, ◌-◌, String, List, [], ◌∷◌, ◌++◌, Option, none, some, Bool, true, false, not,
  if◌then◌else◌,
}
use text.Mathlib.Text.{◌==◌}

-- The two events that the supervisor journals.
pub data LifecycleEvent : Type 0 where
  graph_created graph_completed : String → LifecycleEvent

pub data Request : Type 0 where
  create_graph : (flow_id : String) → Request
  deactivate_graph : (flow_id : String) → Request
  graph_message : (flow_id : String) → Request
  terminated : (flow_id : Option String) → Request
  replay_complete : Request

pub data Effect : Type 0 where
  respond_creation_error : String → Effect
  respond_not_found : String → Effect
  forward : String → Effect
  poison : String → Effect
  watch : String → Effect
  persist_panicked : LifecycleEvent → Effect

-- `active_graphs` is the map of flow IDs to true, without order; `effects` are the messages sent.
pub record Supervisor : Type 0 where
  pub active_graphs : List String
  pub children : List String
  pub journal : List LifecycleEvent
  pub effects : List Effect

abbrev pub emit : Effect → Supervisor → Supervisor
emit e s = record s { effects = s.effects ++ e ∷ [] }

unfoldable pub member : String → List String → Bool
member x [] = false
member x (y ∷ ys) = if y == x then true else member x ys

unfoldable pub delete : String → List String → List String
delete x [] = []
delete x (y ∷ ys) = let rest = delete x ys in if y == x then rest else y ∷ rest

-- `activeGraphs[flowID] = true`
unfoldable pub handle_active_graph : String → List String → List String
unfolding member
handle_active_graph f active = if member f active then active else active ++ f ∷ []

unfoldable pub handle_inactive_graph : String → List String → List String
unfolding delete
handle_inactive_graph f active = delete f active

-- receiveEvent, on a replayed event.
unfoldable pub receive_event : LifecycleEvent → List String → List String
unfolding handle_active_graph handle_inactive_graph
receive_event (graph_created f) active = handle_active_graph f active
receive_event (graph_completed f) active = handle_inactive_graph f active

unfoldable pub replay : List LifecycleEvent → List String → List String
unfolding receive_event
replay [] active = active
replay (e ∷ es) active = replay es (receive_event e active)

module _ (spawn : String → List String → Bool)
    (persists : LifecycleEvent → List LifecycleEvent → Bool) where
  -- spawnGraphActor: whether it succeeded, and the supervisor with the child that it watches.
  unfoldable pub spawn_graph_actor : String → Supervisor → Bool × Supervisor
  spawn_graph_actor f s =
      if spawn f s.children
      then (true, emit (watch f) (record s { children = s.children ++ f ∷ [] }))
      else (false, s)

  -- getGraphActor
  unfoldable pub get_graph_actor : String → Supervisor → Bool × Supervisor
  unfolding spawn_graph_actor member
  get_graph_actor f s = if member f s.children then (true, s) else spawn_graph_actor f s

  -- The loop that respawns the active graphs; an error is ignored.
  unfoldable pub respawn : List String → Supervisor → Supervisor
  unfolding spawn_graph_actor
  respawn [] s = s
  respawn (f ∷ fs) s = respawn fs (spawn_graph_actor f s).1

  abbrev pub created : String → Bool × Supervisor → Supervisor
  created f (true, s) =
      if persists (graph_created f) s.journal
      then emit (forward f) (record s {
        journal = s.journal ++ graph_created f ∷ [];
        active_graphs = handle_active_graph f s.active_graphs;
      })
      else emit (persist_panicked (graph_created f)) s
  created f (false, s) = emit (respond_creation_error f) s

  abbrev pub forwarded : String → Bool × Supervisor → Supervisor
  forwarded f (true, s) = emit (forward f) s
  forwarded f (false, s) = emit (respond_not_found f) s

  -- Whether the handler goes on, and the supervisor.
  abbrev pub deactivated : String → Supervisor → Bool × Supervisor
  deactivated f s =
      if member f s.active_graphs
      then (if persists (graph_completed f) s.journal
          then (
            true,
            record s {
              journal = s.journal ++ graph_completed f ∷ [];
              active_graphs = handle_inactive_graph f s.active_graphs;
            },
          )
          else (false, emit (persist_panicked (graph_completed f)) s))
      else (true, s)

  abbrev pub poisoned : String → Bool × Supervisor → Supervisor
  poisoned f (true, s) = if member f s.children then emit (poison f) s else s
  poisoned f (false, s) = s

  -- receiveCommand. The actor system drops a child that has ended before it tells the supervisor,
  -- and gives the child's name, from which the supervisor reads the flow's ID for its log.
  unfoldable pub receive_command : Request → Supervisor → Supervisor
  unfolding get_graph_actor respawn delete
  receive_command (create_graph f) s = created f (spawn_graph_actor f s)
  receive_command (deactivate_graph f) s = poisoned f (deactivated f s)
  receive_command (graph_message f) s = forwarded f (get_graph_actor f s)
  receive_command (terminated none) s = s
  receive_command (terminated (some f)) s = record s { children = delete f s.children }
  receive_command replay_complete s = respawn s.active_graphs s

  unfoldable pub run : List Request → Supervisor → Supervisor
  unfolding receive_command
  run [] s = s
  run (r ∷ rs) s = run rs (receive_command r s)
