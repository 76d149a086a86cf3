-- ===== src/Graph/Replay/Forgetting.antt =====
-- The structural changes of a graph do not look at what a journal does not keep (graph/graph.go).
use completer.Prelude.{
  ℕ, ◌≡◌, refl, sym, ap, ◌∙◌, inl, inr, List, [], ◌∷◌, Option, none, some, true, false, is_some,
  Option-cases, Outcome, done, panicked, ◌>>=◌, arith, out_of_fuel, for_each, All, done-injective,
}
use completer.Model.Datum.{CompletionResult}
use completer.Model.Event.{
  Event, StageAdded, graph_created, graph_committed, graph_terminating, graph_completed,
  delay_scheduled, stage_added, stage_completed, stage_composed, faas_invocation_started,
  faas_invocation_completed,
}
use completer.Graph.Stage.{
  CompletionStage, CompletionGraph, Strategy, wait_for_all, invoke_with_result, parent_stage_result,
  get_stage, modify_stage, put_stage, complete, mark_triggered, add_child,
}
use completer.Graph.Engine.{
  validate_stages, add_children, add_stage, handle_add_termination_hook, new_stage,
  new_termination_hook, depend_on,
}
use completer.Graph.Strategy.{get_strategy_from_operation}
use completer.Graph.Replay.{
  forget_stage, forget_stages, forget, record_result, effect, replay, replay_all, Continues,
}

pub is_some-get_stage-forget :
    (ss : List CompletionStage) (i : ℕ)
    → is_some (get_stage (forget_stages ss) i) ≡ is_some (get_stage ss i)
unfolding get_stage forget_stage
is_some-get_stage-forget [] i = refl
is_some-get_stage-forget (s ∷ ss) i = ground (arith, is_some-get_stage-forget ss i)

-- A change of a stage that commutes with forgetting does so in the map.
pub forget-modify_stage :
    (f h : CompletionStage → CompletionStage) (i : ℕ) (ss : List CompletionStage)
    → ((s : CompletionStage) → forget_stage (f s) ≡ h (forget_stage s))
    → forget_stages (modify_stage f i ss) ≡ modify_stage h i (forget_stages ss)
unfolding modify_stage forget_stage
forget-modify_stage f h i [] k = refl
forget-modify_stage f h i (s ∷ ss) k = ground (arith, k s, forget-modify_stage f h i ss k)

pub forget-put_stage :
    (t : CompletionStage) (ss : List CompletionStage)
    → forget_stages (put_stage t ss) ≡ put_stage (forget_stage t) (forget_stages ss)
unfolding put_stage forget_stage
forget-put_stage t [] = refl
forget-put_stage t (s ∷ ss) = ground (arith, forget-put_stage t ss)

-- Marking a stage is forgotten.
pub forget-mark_triggered :
    (i : ℕ) (ss : List CompletionStage)
    → forget_stages (modify_stage mark_triggered i ss) ≡ forget_stages ss
unfolding modify_stage forget_stage
forget-mark_triggered i [] = refl
forget-mark_triggered i (s ∷ ss) = ground (arith, forget-mark_triggered i ss)

pub forget-complete :
    (r : CompletionResult) (s : CompletionStage)
    → forget_stage (complete r s) ≡ record_result r (forget_stage s)
unfolding complete record_result forget_stage
forget-complete r s = elim (Option-cases s.result) [ inl e ↦ rw e refl | inr (old, e) ↦ rw e refl ]

validate_stages-forget :
    (ss : List CompletionStage) (is : List ℕ)
    → validate_stages (forget_stages ss) is ≡ validate_stages ss is
unfolding validate_stages
validate_stages-forget ss [] = refl
validate_stages-forget ss (i ∷ is) =
    rw (is_some-get_stage-forget ss i, validate_stages-forget ss is) refl

forget-add_children :
    (c : ℕ) (ds : List ℕ) (ss : List CompletionStage)
    → forget_stages (add_children c ds ss) ≡ add_children c ds (forget_stages ss)
unfolding add_children
forget-add_children c [] ss = refl
forget-add_children c (d ∷ ds) ss =
    forget-add_children c ds (modify_stage (add_child c) d ss)
    ∙ ap (add_children c ds) (
        forget-modify_stage (add_child c) (add_child c) d ss
          λ s. unfold add_child forget_stage in refl)

forget-new_stage :
    (e : StageAdded) (strategy : Strategy) (ss : List CompletionStage)
    → forget_stages (put_stage (new_stage e strategy) (add_children e.stage_id e.dependencies ss))
      ≡ put_stage (new_stage e strategy) (add_children e.stage_id e.dependencies (forget_stages ss))
unfolding forget_stage new_stage
forget-new_stage e strategy ss =
    forget-put_stage (new_stage e strategy) (add_children e.stage_id e.dependencies ss)
    ∙ ap (put_stage (new_stage e strategy)) (forget-add_children e.stage_id e.dependencies ss)

-- A stage is added, or refused, without a look at what is forgotten.
pub add_stage-forget :
    (e : StageAdded) (ss : List CompletionStage)
    → add_stage e (forget_stages ss) ≡ (add_stage e ss >>= λ ts. done (forget_stages ts))
unfolding add_stage
add_stage-forget e ss = elim (Option-cases (get_strategy_from_operation e.op)) [
  | inl n ↦ rw (n, add_stage) refl
  | inr (strategy, y) ↦
      rw
        (
          y,
          is_some-get_stage-forget ss e.stage_id,
          validate_stages-forget ss e.dependencies,
          add_stage,
        )
        (ground (arith, forget-new_stage e strategy ss))
]

pub handle_add_termination_hook-forget :
    (e : StageAdded) (g : CompletionGraph)
    → handle_add_termination_hook e (forget g)
      ≡ (handle_add_termination_hook e g >>= λ h. done (forget h))
unfolding handle_add_termination_hook forget get_strategy_from_operation new_termination_hook
    forget_stage
handle_add_termination_hook-forget e g = elim (Option-cases g.termination_chain_head) [
  | inl n ↦ rw (n, handle_add_termination_hook) (same (sym (forget-put_stage hook g.stages)))
  | inr (old, o) ↦
      rw (o, handle_add_termination_hook)
        (same (
          sym (
            forget-put_stage (record hook { children = old ∷ [] })
              (modify_stage (depend_on e.stage_id) old g.stages)
            ∙ ap (put_stage (record hook { children = old ∷ [] })) (
                forget-modify_stage (depend_on e.stage_id) (depend_on e.stage_id) old g.stages
                  (λ s. refl)))))
]
  where
    hook : CompletionStage
    hook = new_termination_hook e (record {
      can_add_children = false;
      takes_closure = true;
      max_dependencies = some 0;
      min_dependencies = 0;
      trigger_strategy = wait_for_all;
      success_strategy = invoke_with_result;
      failure_strategy = invoke_with_result;
      result_handling_strategy = parent_stage_result;
    })

    same :
        {ss ts : List CompletionStage}
        → ss ≡ ts
        → Outcome.done (record (forget g) { stages = ss; termination_chain_head = some e.stage_id })
          ≡ done (record (forget g) { stages = ts; termination_chain_head = some e.stage_id })
    same h =
        ap (λ x. done (record (forget g) { stages = x; termination_chain_head = some e.stage_id }))
          h

abbrev pub forget_flow : Option CompletionGraph → Option CompletionGraph
forget_flow o = elim o [ none ↦ none | some g ↦ some (forget g) ]

-- On a flow that has a graph, a journal stands for its events' effects.
pub replay-effect :
    (e : Event) (g : CompletionGraph)
    → Continues e
    → replay e (some g) ≡ (effect e g >>= λ h. done (some h))
unfolding replay effect
replay-effect graph_committed g h = refl
replay-effect (graph_terminating status) g h = refl
replay-effect graph_completed g h = refl
replay-effect (stage_added e) g h = refl
replay-effect (stage_completed i r) g h = refl
replay-effect (stage_composed i j) g h = refl
replay-effect (faas_invocation_started i f) g h = refl
replay-effect (faas_invocation_completed i r c) g h = refl
replay-effect (graph_created f function_id) g h = absurd h
replay-effect (delay_scheduled i t) g h = refl

pub replay_all-effects :
    (es : List Event) (g h : CompletionGraph)
    → All Continues es
    → for_each effect es g ≡ done h
    → replay_all es (some g) ≡ done (some h)
unfolding replay_all for_each
replay_all-effects [] g h k e = ap (λ x. done (some x)) (done-injective e)
replay_all-effects (e ∷ es) g h k q =
    rw (replay-effect e g k.0) (first (effect e g) (λ t. replay_all-effects es t h k.1) q)
  where
    first :
        (m : Outcome CompletionGraph)
        → ((t : CompletionGraph)
            → for_each effect es t ≡ done h
            → replay_all es (some t) ≡ done (some h))
        → (m >>= for_each effect es) ≡ done h
        → (m >>= (λ t. done (some t)) >>= for_each replay es) ≡ done (some h)
    first (done t) rest e = rest t e
    first (panicked p) rest e = absurd (cc)
    first out_of_fuel rest e = absurd (cc)
