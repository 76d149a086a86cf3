-- ===== src/Graph/Progress/Results.antt =====
-- The handlers of the other events, the result handling strategies and the recovery move the world
-- and end.
use completer.Prelude.{
  ℕ, ◌≤◌, ◌<◌, refl, inl, inr, List, [], ◌∷◌, Option, none, some, arith, Ensures, Bool-cases,
  Option-cases,
}
use completer.Model.Datum.{CompletionResult}
use completer.Graph.Stage.{CompletionStage, StageDependency, get_stage, modify_stage}
use completer.Graph.Engine.{
  World, Listener, trigger_ready_stages, check_for_execution_finished, recover_stage, recover,
  handle_stage_composed, handle_invoke_complete, handle_result, compose_with, dependency_result,
  referenced_result, parent_result, get_stage_ref,
}
use completer.Graph.Progress.{
  work, work_mono, modify_stage-StagesAdvance, compose_with-StageAdvances,
}
use completer.Graph.Progress.Listener.{Moves, Calls, Moves-refl, then_call}
use completer.Graph.Progress.Loops.{
  trigger_ready_stages-Moves, check_for_execution_finished-Moves, range_stages-Moves,
  recover_stage-Moves,
}
use completer.Graph.Progress.Handlers.{try_complete_composed_stage-Moves, then_Moves}

module _ {H : Type 0} (R : H → H → Type 0) (R_refl : (h : H) → R h h)
    (R_trans : (a b c : H) → R a b → R b c → R a c) (range : ℕ → List ℕ → List ℕ) (L : Listener H)
    (k : ℕ) (calls : Calls R k L) where
  pub recover-Moves : (w : World H) → work w.graph ≤ k → Ensures (Moves R w) (recover range L w)
  unfolding recover
  recover-Moves w h =
      then_Moves R R_refl R_trans range L k calls w _ (check_for_execution_finished range L) h
        (then_Moves R R_refl R_trans range L k calls w _ (trigger_ready_stages range L) h
          (range_stages-Moves R R_refl R_trans range L k calls (recover_stage range L) w
            (recover_stage-Moves R R_refl R_trans range L k calls) h)
          (trigger_ready_stages-Moves R R_refl R_trans range L k calls))
        (check_for_execution_finished-Moves R R_refl R_trans range L k calls)

  compose_with-Moves :
      (o : Option ℕ) (i : ℕ) (w : World H)
      → Moves R w (record w {
        graph = record w.graph { stages = modify_stage (compose_with o) i w.graph.stages };
      })
  compose_with-Moves o i w = record {
    graph = record {
      stages =
          modify_stage-StagesAdvance (compose_with o) i w.graph.stages
            (compose_with-StageAdvances o);
      state = omega arith;
      same_function = refl;
    };
    host = R_refl w.host;
  }

  pub handle_stage_composed-Moves :
      (outer inner : ℕ) (w : World H)
      → work w.graph ≤ k
      → Ensures (Moves R w) (handle_stage_composed range L outer inner w)
  unfolding handle_stage_composed
  handle_stage_composed-Moves outer inner w h =
      elim (Option-cases (get_stage w.graph.stages inner)) [
        | inl e ↦ rw (e, handle_stage_composed) tt
        | inr (i, e) ↦
            rw (e, handle_stage_composed)
              (let o : Option ℕ = elim (get_stage w.graph.stages outer) [
                | none ↦ none
                | some s ↦ some outer
              ] in
                let moved = compose_with-Moves o inner w in
                then_call R R_refl R_trans w _ _ moved (
                  try_complete_composed_stage-Moves R R_refl R_trans range L k calls o inner _
                    (omega (arith, work_mono moved.graph, h))))
      ]

  -- With a call to spare, any stage may be completed.
  spare_call :
      (s : CompletionStage) (q : CompletionResult) (w : World H)
      → work w.graph < k
      → Ensures (Moves R w) (L.on_complete_stage s q w)
  spare_call s q w h = calls.complete s q w (record { enough = omega arith; room = inr h })

  referenced_result-Moves :
      (s : CompletionStage) (r : CompletionResult) (w : World H)
      → work w.graph < k
      → Ensures (Moves R w) (referenced_result range L s r w)
  unfolding referenced_result
  referenced_result-Moves s r w h = elim (Bool-cases r.successful) [
    | inr e ↦ simp e (spare_call s r w h)
    | inl e ↦ simp e (elim (Option-cases (get_stage_ref r.datum)) [
      | inl q ↦ rw q (spare_call s _ w h)
      | inr (i, q) ↦ rw q (elim (Option-cases (get_stage w.graph.stages i)) [
        | inl t ↦ rw t (spare_call s _ w h)
        | inr (ref, t) ↦ rw t (calls.compose s ref w h)
      ])
    ])
  ]

  parent_result-Moves :
      (s : CompletionStage) (ds : List StageDependency) (w : World H)
      → work w.graph < k
      → Ensures (Moves R w) (parent_result range L s ds w)
  unfolding parent_result
  parent_result-Moves s [] w h = tt
  parent_result-Moves s (d ∷ []) w h = elim (Option-cases (dependency_result w.graph d)) [
    | inl e ↦ rw (e, parent_result) tt
    | inr (parent, e) ↦ rw (e, parent_result) (spare_call s parent w h)
  ]
  parent_result-Moves s (d ∷ c ∷ ds) w h = tt

  pub handle_result-Moves :
      (s : CompletionStage) (r : CompletionResult) (w : World H)
      → work w.graph < k
      → Ensures (Moves R w) (handle_result range L s r w)
  unfolding handle_result
  handle_result-Moves s r w h = ground (
    arith,
    spare_call s r w h,
    referenced_result-Moves s r w h,
    parent_result-Moves s s.dependencies w h,
    Moves-refl R R_refl R_trans w,
  )

  pub handle_invoke_complete-Moves :
      (i : ℕ) (r : CompletionResult) (w : World H)
      → work w.graph < k
      → Ensures (Moves R w) (handle_invoke_complete range L i r w)
  unfolding handle_invoke_complete
  handle_invoke_complete-Moves i r w h = elim (Option-cases (get_stage w.graph.stages i)) [
    | inl e ↦ rw (e, handle_invoke_complete) tt
    | inr (s, e) ↦ rw (e, handle_invoke_complete) (handle_result-Moves s r w h)
  ]
