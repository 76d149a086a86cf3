-- ===== src/Graph/Progress/Listener.antt =====
-- Moves of the world, and what the operations of the graph ask of the calls of their listener.
use completer.Prelude.{
  ℕ, suc, ◌≤◌, ◌<◌, ◌≡◌, refl, ◌⊎◌, inl, inr, List, none, some, arith, Outcome, Ensures,
  Ensures-mono,
}
use completer.Model.Datum.{
  CompletionResult, StatusDatumType, new_successful_result, new_state_datum,
}
use completer.Graph.Stage.{
  CompletionStage, CompletionGraph, state_committed, state_terminating, get_stage, modify_stage,
  complete,
}
use completer.Graph.Engine.{World, Listener}
use completer.Graph.Progress.{
  stage_work, work, GraphAdvances, GraphAdvances-refl, GraphAdvances-trans, work_mono,
  modify_stage-StagesAdvance, complete-StageAdvances, stages_work-modify_stage,
}

-- A call to complete a stage has room: either the stage is open, and so completing it takes work
-- away, or there is less work than calls left.
abbrev pub IsOpen : CompletionGraph → ℕ → Type 0
IsOpen g i = (s : CompletionStage) × (get_stage g.stages i ≡ some s) × (s.result ≡ none)

pub record Room (k : ℕ) (i : ℕ) (g : CompletionGraph) : Type 0 where
  pub enough : work g ≤ k
  pub room : IsOpen g i ⊎ (work g < k)

module _ {H : Type 0} (R : H → H → Type 0) where
  -- From one world to another the graph advances, and the hosts are related.
  pub record Moves (w v : World H) : Type 0 where
    pub graph : GraphAdvances w.graph v.graph
    pub host : R w.host v.host

  -- What the operations ask of the listener's calls, with `k` calls left.
  pub record Calls (k : ℕ) (L : Listener H) : Type 0 where
    pub execute :
        (s : CompletionStage) (rs : List CompletionResult) (w : World H)
        → Ensures (Moves w) (L.on_execute_stage s rs w)
    pub complete :
        (s : CompletionStage) (r : CompletionResult) (w : World H)
        → Room k s.id w.graph
        → Ensures (Moves w) (L.on_complete_stage s r w)
    pub compose :
        (s t : CompletionStage) (w : World H)
        → work w.graph < k
        → Ensures (Moves w) (L.on_compose_stage s t w)
    pub finish :
        (w : World H)
        → work w.graph ≤ k
        → w.graph.state ≡ state_committed
        → Ensures (Moves w) (L.on_graph_execution_finished w)
    pub close :
        (w : World H)
        → work w.graph ≤ k
        → w.graph.state ≡ state_terminating
        → Ensures (Moves w) (L.on_graph_complete w)

module _ {H : Type 0} (R : H → H → Type 0) (R_refl : (h : H) → R h h)
    (R_trans : (a b c : H) → R a b → R b c → R a c) where
  pub Moves-refl : (w : World H) → Moves R w w
  Moves-refl w = record { graph = GraphAdvances-refl w.graph; host = R_refl w.host }

  pub Moves-trans : (w v u : World H) → Moves R w v → Moves R v u → Moves R w u
  Moves-trans w v u a b = record {
    graph = GraphAdvances-trans a.graph b.graph;
    host = R_trans w.host v.host u.host a.host b.host;
  }

  -- A call made from a world that was reached from `w`.
  pub then_call :
      (w v : World H) (m : Outcome (World H))
      → Moves R w v
      → Ensures (Moves R v) m
      → Ensures (Moves R w) m
  then_call w v m a h = Ensures-mono (Moves R v) (Moves R w) m h (λ u b. Moves-trans w v u a b)

  abbrev pub completed : ℕ → CompletionResult → World H → World H
  completed i r w = record w {
    graph = record w.graph { stages = modify_stage (complete r) i w.graph.stages };
  }

  pub completed-Moves : (i : ℕ) (r : CompletionResult) (w : World H) → Moves R w (completed i r w)
  completed-Moves i r w = record {
    graph = record {
      stages = modify_stage-StagesAdvance (complete r) i w.graph.stages (complete-StageAdvances r);
      state = omega arith;
      same_function = refl;
    };
    host = R_refl w.host;
  }

  -- Completing an open stage takes its work away.
  pub completed-work :
      (i : ℕ) (r : CompletionResult) (w : World H) {k : ℕ}
      → Room (suc k) i w.graph
      → work (completed i r w).graph ≤ k
  completed-work i r w {k} room = elim room.room [
    | inl (s, found, fresh) ↦
        let left : suc (stage_work (complete r s)) ≤ stage_work s = less_work s fresh in
        omega (arith, stages_work-modify_stage (complete r) w.graph.stages i s found, room.enough)
    | inr less ↦ omega (arith, work_mono (completed-Moves i r w).graph)
  ]
    where
      less_work :
          (s : CompletionStage) → s.result ≡ none → suc (stage_work (complete r s)) ≤ stage_work s
      less_work s fresh = unfold complete in ground (arith, fresh)

  abbrev pub terminating : StatusDatumType → World H → World H
  terminating status w = record w {
    graph = record w.graph {
      state = state_terminating;
      termination_root_result = some (new_successful_result (new_state_datum status));
    };
  }
