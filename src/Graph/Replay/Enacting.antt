-- ===== src/Graph/Replay/Enacting.antt =====
-- UpdateWithEvent has its event's effect on the graph, and then does what its listener's calls
-- may do (graph/graph.go).
use completer.Prelude.{
  arith, ℕ, ◌≡◌, refl, ap, ◌∙◌, inl, inr, List, Option, none, some, Bool, true, false,
  if◌then◌else◌, is_some, Bool-cases, Option-cases, Outcome, done, ◌>>=◌, Whenever, Whenever-bind,
  Whenever-eq, Whenever-mono,
}
use completer.Model.Datum.{CompletionResult, new_successful_result, new_state_datum}
use completer.Model.Event.{
  Event, StageAdded, graph_created, graph_committed, graph_terminating, graph_completed,
  delay_scheduled, stage_added, stage_completed, stage_composed, faas_invocation_started,
  faas_invocation_completed,
}
use completer.Graph.Stage.{
  CompletionStage, CompletionGraph, state_committed, state_terminating, state_completed, get_stage,
  modify_stage, complete,
}
use completer.Graph.Engine.{
  World, Listener, with_graph, trigger_if, check_for_execution_finished,
  try_complete_composed_stage, handle_stage_added, handle_stage_completed, handle_stage_composed,
  handle_committed, handle_terminating, handle_completed, handle_add_termination_hook, add_stage,
  is_termination_hook, compose_with, update_with_event,
}
use completer.Graph.Replay.{
  forget_stage, forget, forget_stages, effect, record_result, modify_existing, existing,
}
use completer.Graph.Replay.Forgetting.{
  forget-complete, forget-modify_stage, is_some-get_stage-forget, add_stage-forget,
  handle_add_termination_hook-forget,
}
use completer.Graph.Replay.Following.{IsBlind, Obeys, Follows-refl, follow_on, trigger_if-Follows}
use completer.Graph.Replay.Calls.{
  check-Follows, try_complete-Follows, handle_invoke_complete-Follows,
}

-- What exists, by the test of `effect`.
existing-forget :
    (g : CompletionGraph) (i : ℕ) (s : CompletionStage)
    → get_stage g.stages i ≡ some s
    → is_some (get_stage (forget_stages g.stages) i) ≡ true
existing-forget g i s e = is_some-get_stage-forget g.stages i ∙ ap is_some e

existing-forget_stages :
    (ss : List CompletionStage) (i : ℕ)
    → existing i (forget_stages ss) ≡ (elim (get_stage ss i) [ none ↦ none | some s ↦ some i ])
unfolding existing
existing-forget_stages ss i = rw (is_some-get_stage-forget ss i) (by_stage (get_stage ss i))
  where
    by_stage :
        (o : Option CompletionStage)
        → (if is_some o then some i else none) ≡ (elim o [ none ↦ none | some s ↦ some i ])
    by_stage none = refl
    by_stage (some s) = refl

-- The event's effect on the graph that is seen, and then whatever follows.
pub record Enacts {H : Type 0} (F : World H → World H → Type 0) (e : Event) (w v : World H)
    : Type 0 where
  pub graph : CompletionGraph
  pub effected : effect e (forget w.graph) ≡ done (forget graph)
  pub followed : F (record w { graph = graph }) v

module _ {H : Type 0} (F : World H → World H → Type 0) (blind : IsBlind F)
    (range : ℕ → List ℕ → List ℕ) (L : Listener H) (obeys : Obeys F L) where
  same : (w : World H) → F w w
  same = Follows-refl F blind

  enacts :
      (e : Event) (w : World H) (g : CompletionGraph) (m : Outcome (World H))
      → effect e (forget w.graph) ≡ done (forget g)
      → Whenever (F (record w { graph = g })) m
      → Whenever (Enacts F e w) m
  enacts e w g m h k =
      Whenever-mono (F (record w { graph = g })) (Enacts F e w) m k
        (λ v a. record { graph = g; effected = h; followed = a })

  idles :
      (e : Event) (w : World H) → effect e (forget w.graph) ≡ done (forget w.graph) → Enacts F e w w
  idles e w h = record { graph = w.graph; effected = h; followed = same w }

  handle_stage_added-Enacts :
      (e : StageAdded) (b : Bool) (w : World H)
      → is_termination_hook e.op ≡ false
      → Whenever (Enacts F (stage_added e) w) (handle_stage_added range L e b w)
  unfolding handle_stage_added effect
  handle_stage_added-Enacts e b w plain =
      Whenever-bind (λ ss. add_stage e w.graph.stages ≡ done ss) (Enacts F (stage_added e) w)
        (add_stage e w.graph.stages) _ (Whenever-eq (add_stage e w.graph.stages))
        (λ ss q.
          enacts (stage_added e) w (record w.graph { stages = ss }) _
            (unfold forget in rw (plain, add_stage-forget e w.graph.stages, q) refl)
            (trigger_if-Follows F blind range L obeys b _))

  add_termination_hook-Enacts :
      (e : StageAdded) (w : World H)
      → is_termination_hook e.op ≡ true
      → Whenever
          (Enacts F (stage_added e) w)
          (handle_add_termination_hook e w.graph >>= λ g. done (with_graph range L w g))
  unfolding effect
  add_termination_hook-Enacts e w hook =
      Whenever-bind (λ g. handle_add_termination_hook e w.graph ≡ done g)
        (Enacts F (stage_added e) w) (handle_add_termination_hook e w.graph) _
        (Whenever-eq (handle_add_termination_hook e w.graph))
        (λ g q.
          enacts (stage_added e) w g (done (with_graph range L w g))
            (rw (hook, handle_add_termination_hook-forget e w.graph, q) refl)
            (same (with_graph range L w g)))

  handle_stage_completed-Enacts :
      (i : ℕ) (r : CompletionResult) (b : Bool) (w : World H)
      → Whenever (Enacts F (stage_completed i r) w) (handle_stage_completed range L i r b w)
  unfolding handle_stage_completed effect modify_existing
  handle_stage_completed-Enacts i r b w = elim (Option-cases (get_stage w.graph.stages i)) [
    | inl e ↦ rw (e, handle_stage_completed) tt
    | inr (node, e) ↦
        let g : CompletionGraph = record w.graph {
          stages = modify_stage (complete r) i w.graph.stages;
        } in
        let v = with_graph range L w g in
        rw (e, handle_stage_completed)
          (enacts (stage_completed i r) w g _
            (unfold forget in
              rw
                (
                  existing-forget w.graph i node e,
                  forget-modify_stage (complete r) (record_result r) i w.graph.stages
                      (forget-complete r),
                )
                refl)
            (follow_on F blind v _ (check_for_execution_finished range L)
              (follow_on F blind v _ (trigger_if range L b) (composed node v)
                (trigger_if-Follows F blind range L obeys b))
              (check-Follows F blind range L obeys)))
  ]
    where
      composed :
          (node : CompletionStage) (v : World H)
          → Whenever (F v) (elim node.compose_reference [
            | none ↦ done v
            | some outer ↦ try_complete_composed_stage range L (some outer) i v
          ])
      composed node v =
          ground
            (arith, same v, try_complete-Follows F blind range L obeys node.compose_reference i v)

  handle_stage_composed-Enacts :
      (outer inner : ℕ) (w : World H)
      → Whenever
          (Enacts F (stage_composed outer inner) w)
          (handle_stage_composed range L outer inner w)
  unfolding handle_stage_composed effect modify_existing existing
  handle_stage_composed-Enacts outer inner w =
      elim (Option-cases (get_stage w.graph.stages inner)) [
        | inl e ↦ rw (e, handle_stage_composed) tt
        | inr (node, e) ↦
            let o : Option ℕ = elim (get_stage w.graph.stages outer) [
              | none ↦ none
              | some s ↦ some outer
            ] in
            rw (e, handle_stage_composed)
              (enacts (stage_composed outer inner) w
                (record w.graph { stages = modify_stage (compose_with o) inner w.graph.stages }) _
                (unfold forget in
                  rw
                    (
                      existing-forget w.graph inner node e,
                      existing-forget_stages w.graph.stages outer,
                      forget-modify_stage (compose_with o) (compose_with o) inner w.graph.stages
                          (λ s. unfold forget_stage in refl),
                    )
                    refl)
                (try_complete-Follows F blind range L obeys o inner _))
      ]

  pub update_with_event-Enacts :
      (e : Event) (may_trigger : Bool) (w : World H)
      → Whenever (Enacts F e w) (update_with_event range L e may_trigger w)
  unfolding update_with_event effect handle_committed handle_terminating handle_completed
  update_with_event-Enacts graph_committed b w =
      enacts graph_committed w (record w.graph { state = state_committed }) _
        (unfold forget in refl) (check-Follows F blind range L obeys _)
  update_with_event-Enacts (graph_terminating status) b w =
      let g : CompletionGraph = record w.graph {
        state = state_terminating;
        termination_root_result = some (new_successful_result (new_state_datum status));
      } in
      let v = with_graph range L w g in
      enacts (graph_terminating status) w g _ (unfold forget in refl) (
        follow_on F blind v _ (check_for_execution_finished range L)
          (trigger_if-Follows F blind range L obeys b v) (check-Follows F blind range L obeys))
  update_with_event-Enacts graph_completed b w =
      let g : CompletionGraph = record w.graph { state = state_completed } in
      enacts graph_completed w g (done (with_graph range L w g)) (unfold forget in refl)
        (same (with_graph range L w g))
  update_with_event-Enacts (stage_added e) b w = elim (Bool-cases (is_termination_hook e.op)) [
    | inl h ↦ rw (h, update_with_event) (add_termination_hook-Enacts e w h)
    | inr h ↦ rw (h, update_with_event) (handle_stage_added-Enacts e b w h)
  ]
  update_with_event-Enacts (stage_completed i r) b w = handle_stage_completed-Enacts i r b w
  update_with_event-Enacts (stage_composed i j) b w = handle_stage_composed-Enacts i j w
  update_with_event-Enacts (faas_invocation_completed i r c) true w =
      enacts (faas_invocation_completed i r c) w w.graph _ refl
        (handle_invoke_complete-Follows F blind range L obeys i r w)
  update_with_event-Enacts (faas_invocation_completed i r c) false w =
      idles (faas_invocation_completed i r c) w refl
  update_with_event-Enacts (faas_invocation_started i f) b w =
      idles (faas_invocation_started i f) w refl
  update_with_event-Enacts (graph_created f g) b w = idles (graph_created f g) w refl
  update_with_event-Enacts (delay_scheduled i t) b w = idles (delay_scheduled i t) w refl
