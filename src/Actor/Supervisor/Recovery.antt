-- ===== src/Actor/Supervisor/Recovery.antt =====
-- The supervisor's journal replays to its active graphs, whatever it received.
use completer.Prelude.{
  ◌≡◌, refl, ◌∙◌, ap, String, List, [], ◌∷◌, ◌++◌, none, some, Bool, true, false, arith,
}
use completer.Actor.Supervisor.{
  LifecycleEvent, graph_created, graph_completed, Request, create_graph, deactivate_graph,
  graph_message, terminated, replay_complete, Supervisor, receive_event, replay, spawn_graph_actor,
  get_graph_actor, respawn, receive_command, run, created, forwarded, deactivated, poisoned,
}

pub replay-append :
    (es fs : List LifecycleEvent) (active : List String)
    → replay (es ++ fs) active ≡ replay fs (replay es active)
unfolding replay
replay-append [] fs active = refl
replay-append (e ∷ es) fs active = replay-append es fs (receive_event e active)

abbrev pub empty : Supervisor
empty = record { active_graphs = []; children = []; journal = []; effects = [] }

abbrev pub IsDurable : Supervisor → Type 0
IsDurable s = replay s.journal [] ≡ s.active_graphs

-- One more journaled event, applied to the active graphs.
journal-IsDurable :
    (e : LifecycleEvent) (s : Supervisor)
    → IsDurable s
    → replay (s.journal ++ e ∷ []) [] ≡ receive_event e s.active_graphs
unfolding replay
journal-IsDurable e s h = replay-append s.journal (e ∷ []) [] ∙ ap (receive_event e) h

module _ (spawn : String → List String → Bool)
    (persists : LifecycleEvent → List LifecycleEvent → Bool) where
  spawn-IsDurable :
      (f : String) (s : Supervisor)
      → IsDurable s
      → IsDurable (spawn_graph_actor spawn persists f s).1
  unfolding spawn_graph_actor
  spawn-IsDurable f s h = ground (arith, h)

  created-IsDurable :
      (f : String) (p : Bool × Supervisor) → IsDurable p.1 → IsDurable (created spawn persists f p)
  unfolding receive_event
  created-IsDurable f (true, s) h = ground (arith, journal-IsDurable (graph_created f) s h, h)
  created-IsDurable f (false, s) h = h

  forwarded-IsDurable :
      (f : String) (p : Bool × Supervisor)
      → IsDurable p.1
      → IsDurable (forwarded spawn persists f p)
  forwarded-IsDurable f (true, s) h = h
  forwarded-IsDurable f (false, s) h = h

  deactivated-IsDurable :
      (f : String) (s : Supervisor) → IsDurable s → IsDurable (deactivated spawn persists f s).1
  unfolding receive_event
  deactivated-IsDurable f s h = ground (arith, journal-IsDurable (graph_completed f) s h, h)

  poisoned-IsDurable :
      (f : String) (p : Bool × Supervisor) → IsDurable p.1 → IsDurable (poisoned spawn persists f p)
  poisoned-IsDurable f (true, s) h = ground (arith, h)
  poisoned-IsDurable f (false, s) h = h

  get_graph_actor-IsDurable :
      (f : String) (s : Supervisor) → IsDurable s → IsDurable (get_graph_actor spawn persists f s).1
  unfolding get_graph_actor
  get_graph_actor-IsDurable f s h = ground (arith, h, spawn-IsDurable f s h)

  respawn-IsDurable :
      (fs : List String) (s : Supervisor) → IsDurable s → IsDurable (respawn spawn persists fs s)
  unfolding respawn
  respawn-IsDurable [] s h = h
  respawn-IsDurable (f ∷ fs) s h =
      respawn-IsDurable fs (spawn_graph_actor spawn persists f s).1 (spawn-IsDurable f s h)

  receive_command-IsDurable :
      (r : Request) (s : Supervisor) → IsDurable s → IsDurable (receive_command spawn persists r s)
  unfolding receive_command
  receive_command-IsDurable (create_graph f) s h =
      created-IsDurable f (spawn_graph_actor spawn persists f s) (spawn-IsDurable f s h)
  receive_command-IsDurable (deactivate_graph f) s h =
      poisoned-IsDurable f (deactivated spawn persists f s) (deactivated-IsDurable f s h)
  receive_command-IsDurable (graph_message f) s h =
      forwarded-IsDurable f (get_graph_actor spawn persists f s) (get_graph_actor-IsDurable f s h)
  receive_command-IsDurable (terminated none) s h = h
  receive_command-IsDurable (terminated (some f)) s h = h
  receive_command-IsDurable replay_complete s h = respawn-IsDurable s.active_graphs s h

  run-IsDurable :
      (rs : List Request) (s : Supervisor) → IsDurable s → IsDurable (run spawn persists rs s)
  unfolding run
  run-IsDurable [] s h = h
  run-IsDurable (r ∷ rs) s h =
      run-IsDurable rs (receive_command spawn persists r s) (receive_command-IsDurable r s h)

  -- After any requests to a supervisor that starts empty, whichever actors could be spawned and
  -- whichever events could be persisted, the replay of its journal gives its active graphs, in order.
  pub replay-run :
      (rs : List Request)
      → replay (run spawn persists rs empty).journal []
        ≡ (run spawn persists rs empty).active_graphs
  replay-run rs = run-IsDurable rs empty (unfold replay in refl)
