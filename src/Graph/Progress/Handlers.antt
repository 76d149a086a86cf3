-- ===== src/Graph/Progress/Handlers.antt =====
-- The handlers of events move the world and end.
use completer.Prelude.{
  ℕ, suc, ◌≤◌, ◌≡◌, refl, inl, inr, List, Option, none, some, Bool, if◌then◌else◌, arith,
  nil_dereference, Outcome, done, panicked, Ensures, Ensures-bind, ◌>>=◌, Bool-cases, Option-cases,
}
use completer.Model.Datum.{CompletionResult, StatusDatumType}
use completer.Graph.Stage.{state_committed, get_stage, is_resolved}
use completer.Graph.Engine.{
  World, Listener, check_for_execution_finished, trigger_if, try_complete_composed_stage,
  handle_stage_completed, handle_terminating,
}
use completer.Graph.Progress.{work, work_mono, StagesAdvance-refl, get_stage_self}
use completer.Graph.Progress.Listener.{
  Room, Moves, Calls, Moves-refl, then_call, completed, completed-Moves, completed-work,
  terminating,
}
use completer.Graph.Progress.Loops.{trigger_if-Moves, check_for_execution_finished-Moves}

module _ {H : Type 0} (R : H → H → Type 0) (R_refl : (h : H) → R h h)
    (R_trans : (a b c : H) → R a b → R b c → R a c) (range : ℕ → List ℕ → List ℕ) (L : Listener H)
    (k : ℕ) (calls : Calls R k L) where
  -- The listener completes a stage that was found open.
  complete_open-Moves :
      (o : ℕ) (r : CompletionResult) (w : World H)
      → work w.graph ≤ k
      → Ensures (Moves R w) (elim (get_stage w.graph.stages o) [
        | none ↦ panicked nil_dereference
        | some s ↦ if is_resolved s.result then done w else L.on_complete_stage s r w
      ])
  complete_open-Moves o r w h = elim (Option-cases (get_stage w.graph.stages o)) [
    | inl e ↦ rw e tt
    | inr (s, e) ↦ rw e (elim (Bool-cases (is_resolved s.result)) [
      | inl q ↦ rw q (Moves-refl R R_refl R_trans w)
      | inr q ↦ rw q (
          calls.complete s r w (record {
            enough = h;
            room = inl (s, get_stage_self w.graph.stages o s e, ground (arith, q));
          }))
    ])
  ]

  pub try_complete_composed_stage-Moves :
      (outer : Option ℕ) (inner : ℕ) (w : World H)
      → work w.graph ≤ k
      → Ensures (Moves R w) (try_complete_composed_stage range L outer inner w)
  unfolding try_complete_composed_stage
  try_complete_composed_stage-Moves none inner w h = ground (arith, Moves-refl R R_refl R_trans w)
  try_complete_composed_stage-Moves (some o) inner w h =
      elim (Option-cases (get_stage w.graph.stages inner)) [
        | inl e ↦ rw (e, try_complete_composed_stage) tt
        | inr (i, e) ↦ rw (e, try_complete_composed_stage) (with_result i.result)
      ]
    where
      with_result :
          (result : Option CompletionResult)
          → Ensures (Moves R w) (elim result [
            | none ↦ done w
            | some r ↦ elim (get_stage w.graph.stages o) [
              | none ↦ panicked nil_dereference
              | some s ↦ if is_resolved s.result then done w else L.on_complete_stage s r w
            ]
          ])
      with_result none = Moves-refl R R_refl R_trans w
      with_result (some r) = complete_open-Moves o r w h

  -- What the completed stage does for the stage that it is composed into.
  pub compose_step-Moves :
      (reference : Option ℕ) (i : ℕ) (w : World H)
      → work w.graph ≤ k
      → Ensures (Moves R w) (elim reference [
        | none ↦ done w
        | some outer ↦ try_complete_composed_stage range L (some outer) i w
      ])
  compose_step-Moves none i w h = Moves-refl R R_refl R_trans w
  compose_step-Moves (some outer) i w h = try_complete_composed_stage-Moves (some outer) i w h

  -- The rest of a handler, after a first part that moves the world.
  pub then_Moves :
      (w : World H) (m : Outcome (World H)) (f : World H → Outcome (World H))
      → work w.graph ≤ k
      → Ensures (Moves R w) m
      → ((v : World H) → work v.graph ≤ k → Ensures (Moves R v) (f v))
      → Ensures (Moves R w) (m >>= f)
  then_Moves w m f h first next =
      Ensures-bind (Moves R w) (Moves R w) m f first (λ v a.
        then_call R R_refl R_trans w v (f v) a (next v (omega (arith, work_mono a.graph, h))))

  -- A result arrives for a stage that is open, or with calls to spare.
  pub handle_stage_completed-Moves :
      (i : ℕ) (r : CompletionResult) (should_trigger : Bool) (w : World H)
      → Room (suc k) i w.graph
      → Ensures (Moves R w) (handle_stage_completed range L i r should_trigger w)
  unfolding handle_stage_completed
  handle_stage_completed-Moves i r should_trigger w room =
      elim (Option-cases (get_stage w.graph.stages i)) [
        | inl e ↦ rw (e, handle_stage_completed) tt
        | inr (node, e) ↦
            let less : work (completed R R_refl R_trans i r w).graph ≤ k =
              completed-work R R_refl R_trans i r w room in
            rw (e, handle_stage_completed)
              (then_call R R_refl R_trans w (completed R R_refl R_trans i r w) _
                (completed-Moves R R_refl R_trans i r w)
                (then_Moves (completed R R_refl R_trans i r w) _
                  (check_for_execution_finished range L) less
                  (then_Moves (completed R R_refl R_trans i r w) _
                    (trigger_if range L should_trigger) less
                    (compose_step-Moves node.compose_reference i (completed R R_refl R_trans i r w)
                      less)
                    (trigger_if-Moves R R_refl R_trans range L k calls should_trigger))
                  (check_for_execution_finished-Moves R R_refl R_trans range L k calls)))
      ]

  pub handle_terminating-Moves :
      (status : StatusDatumType) (should_trigger : Bool) (w : World H)
      → work w.graph ≤ suc k
      → w.graph.state ≡ state_committed
      → Ensures (Moves R w) (handle_terminating range L status should_trigger w)
  unfolding handle_terminating
  handle_terminating-Moves status should_trigger w h e =
      let v = terminating R R_refl R_trans status w in
      let less : work v.graph ≤ k = ground (arith, e) in
      then_call R R_refl R_trans w v _
        (record {
          graph = record {
            stages = StagesAdvance-refl w.graph.stages;
            state = ground (arith, e);
            same_function = refl;
          };
          host = R_refl w.host;
        })
        (then_Moves v _ (check_for_execution_finished range L) less
          (trigger_if-Moves R R_refl R_trans range L k calls should_trigger v less)
          (check_for_execution_finished-Moves R R_refl R_trans range L k calls))
