-- ===== src/Graph/Replay/Calls.antt =====
-- The operations that end in calls of the listener, each of which keeps to a relation of worlds that
-- the calls keep to (graph/graph.go).
use completer.Prelude.{
  arith, ℕ, inl, inr, List, [], ◌∷◌, Option, none, some, if◌then◌else◌, Bool-cases, Option-cases,
  done, panicked, Whenever, nil_dereference,
}
use completer.Model.Datum.{CompletionResult}
use completer.Graph.Stage.{CompletionStage, StageDependency, is_resolved, get_stage}
use completer.Graph.Engine.{
  World, Listener, check_for_execution_finished, dependency_result, try_complete_composed_stage,
  referenced_result, parent_result, handle_result, handle_invoke_complete, get_stage_ref,
}
use completer.Graph.Replay.Following.{IsBlind, Obeys, Follows-refl}

module _ {H : Type 0} (F : World H → World H → Type 0) (blind : IsBlind F)
    (range : ℕ → List ℕ → List ℕ) (L : Listener H) (obeys : Obeys F L) where
  same : (w : World H) → F w w
  same = Follows-refl F blind

  pub check-Follows : (w : World H) → Whenever (F w) (check_for_execution_finished range L w)
  unfolding check_for_execution_finished
  check-Follows w = ground (arith, obeys.finish w, obeys.close w, same w)

  abbrev Completes : World H → Type 0
  Completes w =
      (s : CompletionStage) (q : CompletionResult) → Whenever (F w) (L.on_complete_stage s q w)

  pub try_complete-Follows :
      (outer : Option ℕ) (inner : ℕ) (w : World H)
      → Whenever (F w) (try_complete_composed_stage range L outer inner w)
  unfolding try_complete_composed_stage
  try_complete-Follows outer inner w = elim (Option-cases (get_stage w.graph.stages inner)) [
    | inl e ↦ rw (e, try_complete_composed_stage) tt
    | inr (i, e) ↦ rw (e, try_complete_composed_stage) (by_result i)
  ]
    where
      by_outer :
          (r : CompletionResult) (o : Option ℕ)
          → Whenever (F w) (elim o [
            | none ↦ panicked nil_dereference
            | some o ↦ elim (get_stage w.graph.stages o) [
              | none ↦ panicked nil_dereference
              | some s ↦ if is_resolved s.result then done w else L.on_complete_stage s r w
            ]
          ])
      by_outer r none = tt
      by_outer r (some o) = elim (Option-cases (get_stage w.graph.stages o)) [
        | inl e ↦ rw e tt
        | inr (s, e) ↦ rw e (ground (arith, obeys.complete s r w, same w))
      ]

      by_result :
          (i : CompletionStage)
          → Whenever (F w) (elim i.result [
            | none ↦ done w
            | some r ↦ elim outer [
              | none ↦ panicked nil_dereference
              | some o ↦ elim (get_stage w.graph.stages o) [
                | none ↦ panicked nil_dereference
                | some s ↦ if is_resolved s.result then done w else L.on_complete_stage s r w
              ]
            ]
          ])
      by_result i = elim (Option-cases i.result) [
        | inl e ↦ rw e (same w)
        | inr (r, e) ↦ rw e (by_outer r outer)
      ]

  referenced_result-Follows :
      (s : CompletionStage) (r : CompletionResult) (w : World H)
      → Whenever (F w) (referenced_result range L s r w)
  unfolding referenced_result
  referenced_result-Follows s r w = elim (Bool-cases r.successful) [
    | inr e ↦ simp e (obeys.complete s r w)
    | inl e ↦ simp e (elim (Option-cases (get_stage_ref r.datum)) [
      | inl q ↦ rw q (obeys.complete s _ w)
      | inr (i, q) ↦ rw q (elim (Option-cases (get_stage w.graph.stages i)) [
        | inl t ↦ rw t (obeys.complete s _ w)
        | inr (ref, t) ↦ rw t (obeys.compose s ref w)
      ])
    ])
  ]

  parent_result-Follows :
      (s : CompletionStage) (ds : List StageDependency) (w : World H)
      → Whenever (F w) (parent_result range L s ds w)
  unfolding parent_result
  parent_result-Follows s [] w = tt
  parent_result-Follows s (d ∷ []) w = elim (Option-cases (dependency_result w.graph d)) [
    | inl e ↦ rw (e, parent_result) tt
    | inr (parent, e) ↦ rw (e, parent_result) (obeys.complete s parent w)
  ]
  parent_result-Follows s (d ∷ c ∷ ds) w = tt

  handle_result-Follows :
      (s : CompletionStage) (r : CompletionResult) (w : World H)
      → Whenever (F w) (handle_result range L s r w)
  unfolding handle_result
  handle_result-Follows s r w = ground (
    arith,
    obeys.complete s r w,
    referenced_result-Follows s r w,
    parent_result-Follows s s.dependencies w,
    same w,
  )

  pub handle_invoke_complete-Follows :
      (i : ℕ) (r : CompletionResult) (w : World H)
      → Whenever (F w) (handle_invoke_complete range L i r w)
  unfolding handle_invoke_complete
  handle_invoke_complete-Follows i r w = elim (Option-cases (get_stage w.graph.stages i)) [
    | inl e ↦ rw (e, handle_invoke_complete) tt
    | inr (s, e) ↦ rw (e, handle_invoke_complete) (handle_result-Follows s r w)
  ]
