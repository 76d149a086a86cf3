-- ===== src/Graph/Progress/Loops.antt =====
-- The loops over the stages, and the check for the end, move the world and end.
use completer.Prelude.{
  ℕ, ◌≤◌, ◌≡◌, refl, inl, inr, List, none, some, Bool, true, false, if◌then◌else◌, arith, Outcome,
  done, Ensures, Ensures-bind, for_each_inv, ◌>>=◌, Bool-cases, Option-cases,
}
use completer.Model.Datum.{CompletionResult}
use completer.Graph.Stage.{
  CompletionStage, CompletionGraph, get_stage, mark_triggered, stage_ids, is_resolved,
}
use completer.Graph.Strategy.{
  Trigger, run_execution, Action, execute_stage, complete_stage, no_action,
}
use completer.Graph.Engine.{
  World, Listener, request_trigger, range_stages, trigger, trigger_ready_stage,
  trigger_ready_stages, check_for_execution_finished, with_graph, trigger_if, recover_stage,
  stage_recovery_failed_result,
}
use completer.Graph.Progress.{
  work, work_mono, StagesAdvance-refl, get_stage-modify_stage_self, get_stage_self,
}
use completer.Graph.Progress.Requests.{
  run_execution-ends, mark_graph, mark_graph-GraphAdvances, Requested, request_trigger-Requested,
}
use completer.Graph.Progress.Listener.{Room, Moves, Calls, Moves-refl, then_call}

module _ {H : Type 0} (R : H → H → Type 0) (R_refl : (h : H) → R h h)
    (R_trans : (a b c : H) → R a b → R b c → R a c) (range : ℕ → List ℕ → List ℕ) (L : Listener H)
    (k : ℕ) (calls : Calls R k L) where
  trigger-Moves :
      (s : CompletionStage) (status : Bool) (input : List CompletionResult) (w : World H)
      → Room k s.id w.graph
      → Ensures (Moves R w) (trigger range L s status input w)
  unfolding trigger
  trigger-Moves s status input w room =
      Ensures-bind (λ a. Unit) (Moves R w)
        (run_execution (if status then s.strategy.success_strategy else s.strategy.failure_strategy)
          input)
        _ (run_execution-ends _ input) (λ a _. act a)
    where
      act :
          (a : Action)
          → Ensures (Moves R w) (elim a [
            | execute_stage args ↦ L.on_execute_stage s args w
            | complete_stage r ↦ L.on_complete_stage s r w
            | no_action ↦ done w
          ])
      act (execute_stage args) = calls.execute s args w
      act (complete_stage r) = calls.complete s r w room
      act no_action = Moves-refl R R_refl R_trans w

  -- What requestTrigger leaves, and the work that it takes away.
  marked-Room :
      (s : CompletionStage) (g : CompletionGraph)
      → get_stage g.stages s.id ≡ some s
      → s.result ≡ none
      → work g ≤ k
      → Room k s.id (mark_graph s g)
  marked-Room s g found fresh h = record {
    enough = omega (arith, work_mono (mark_graph-GraphAdvances s g));
    room = inl (
      mark_triggered s,
      get_stage-modify_stage_self mark_triggered g.stages s.id s found refl,
      fresh,
    );
  }

  -- The bodies of the two loops that trigger stages: what they do once a stage is triggered has
  -- room to complete it.
  requested-Moves :
      (act : Trigger → World H → Outcome (World H)) (s : CompletionStage) (w : World H)
      → ((t : Trigger) (v : World H) → Room k s.id v.graph → Ensures (Moves R v) (act t v))
      → get_stage w.graph.stages s.id ≡ some s
      → work w.graph ≤ k
      → Ensures (Moves R w) (
          if is_resolved s.result
          then done w
          else (request_trigger w.graph s >>= λ tg.
              if tg.0.should_trigger
              then act tg.0 (with_graph range L w tg.1)
              else done (with_graph range L w tg.1)))
  requested-Moves act s w go found h = elim (Bool-cases (is_resolved s.result)) [
    | inl e ↦ rw e (Moves-refl R R_refl R_trans w)
    | inr e ↦ rw e (
        Ensures-bind (Requested w.graph s) (Moves R w) (request_trigger w.graph s) _
          (request_trigger-Requested w.graph s) (λ tg q. next tg q (ground (arith, e))))
  ]
    where
      next :
          (tg : Trigger × CompletionGraph)
          → Requested w.graph s tg
          → s.result ≡ none
          → Ensures (Moves R w) (
              if tg.0.should_trigger
              then act tg.0 (with_graph range L w tg.1)
              else done (with_graph range L w tg.1))
      next (t, g) (inl (no_trigger, same)) fresh =
          simp (no_trigger, same) (Moves-refl R R_refl R_trans w)
      next (t, g) (inr (yes_trigger, marked)) fresh =
          simp (yes_trigger, marked)
            (then_call R R_refl R_trans w (with_graph range L w (mark_graph s w.graph)) _
              (record { graph = mark_graph-GraphAdvances s w.graph; host = R_refl w.host })
              (go t _ (marked-Room s w.graph found fresh h)))

  trigger_ready_stage-Moves :
      (s : CompletionStage) (w : World H)
      → get_stage w.graph.stages s.id ≡ some s
      → work w.graph ≤ k
      → Ensures (Moves R w) (trigger_ready_stage range L s w)
  unfolding trigger_ready_stage
  trigger_ready_stage-Moves s w =
      requested-Moves (λ t v. trigger range L s t.status t.inputs v) s w
        (λ t v room. trigger-Moves s t.status t.inputs v room)

  pub recover_stage-Moves :
      (s : CompletionStage) (w : World H)
      → get_stage w.graph.stages s.id ≡ some s
      → work w.graph ≤ k
      → Ensures (Moves R w) (recover_stage range L s w)
  unfolding recover_stage
  recover_stage-Moves s w =
      requested-Moves (λ t v. L.on_complete_stage s stage_recovery_failed_result v) s w
        (λ t v room. calls.complete s stage_recovery_failed_result v room)

  pub range_stages-Moves :
      (body : CompletionStage → World H → Outcome (World H)) (w : World H)
      → ((s : CompletionStage) (v : World H)
          → get_stage v.graph.stages s.id ≡ some s
          → work v.graph ≤ k
          → Ensures (Moves R v) (body s v))
      → work w.graph ≤ k
      → Ensures (Moves R w) (range_stages range L body w)
  unfolding range_stages
  range_stages-Moves body w keep h =
      for_each_inv (Moves R w) _ visit (range w.graph.ranges (stage_ids w.graph.stages)) _ (record {
        graph = record {
          stages = StagesAdvance-refl w.graph.stages;
          state = omega arith;
          same_function = refl;
        };
        host = R_refl w.host;
      })
    where
      visit :
          (i : ℕ) (v : World H)
          → Moves R w v
          → Ensures
              (Moves R w)
              (elim (get_stage v.graph.stages i) [ none ↦ done v | some s ↦ body s v ])
      visit i v a = elim (Option-cases (get_stage v.graph.stages i)) [
        | inl e ↦ rw e a
        | inr (s, e) ↦ rw e (
            then_call R R_refl R_trans w v (body s v) a (
              keep s v (get_stage_self v.graph.stages i s e) (omega (arith, work_mono a.graph, h))))
      ]

  pub trigger_ready_stages-Moves :
      (w : World H) → work w.graph ≤ k → Ensures (Moves R w) (trigger_ready_stages range L w)
  unfolding trigger_ready_stages
  trigger_ready_stages-Moves w = range_stages-Moves _ w trigger_ready_stage-Moves

  pub trigger_if-Moves :
      (b : Bool) (w : World H) → work w.graph ≤ k → Ensures (Moves R w) (trigger_if range L b w)
  trigger_if-Moves true w h = trigger_ready_stages-Moves w h
  trigger_if-Moves false w h = Moves-refl R R_refl R_trans w

  pub check_for_execution_finished-Moves :
      (w : World H)
      → work w.graph ≤ k
      → Ensures (Moves R w) (check_for_execution_finished range L w)
  unfolding check_for_execution_finished
  check_for_execution_finished-Moves w h =
      ground (arith, calls.finish w h, calls.close w h, Moves-refl R R_refl R_trans w)
