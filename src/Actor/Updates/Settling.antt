-- ===== src/Actor/Updates/Settling.antt =====
-- A flow does not get stuck at the end of its work (checkForExecutionFinished of graph/graph.go with
-- OnGraphExecutionFinished and OnGraphComplete of actor/graph.go).
use completer.Prelude.{
  ℕ, zero, suc, ◌+◌, ◌*◌, ◌≤◌, ◌<◌, ◌≡◌, refl, inl, inr, ◌≢◌, List, Bool, false, ◌==◌, arith,
  Outcome, Ensures, Ensures-bind, ◌>>=◌, Bool-cases, Option-cases, length, subst,
}
use completer.Model.Datum.{CompletionResult, StatusDatumType, succeeded}
use completer.Model.Event.{
  Event, graph_terminating, graph_completed, graph_committed, stage_completed,
}
use completer.Graph.Stage.{
  CompletionStage, State, state_initial, state_committed, state_terminating, state_completed,
  main_exec_phase, termination_exec_phase, get_pending_count, get_stage,
}
use completer.Graph.Engine.{
  World, update_with_event, check_for_execution_finished, handle_terminating, handle_completed,
  handle_committed, handle_stage_completed, trigger_if, with_graph,
}
use completer.Graph.Progress.{work, work_mono}
use completer.Graph.Progress.Listener.{Room, Moves, completed, completed-work, terminating}
use completer.Graph.Progress.Loops.{trigger_if-Moves}
use completer.Graph.Progress.Handlers.{compose_step-Moves, then_Moves}
use completer.Persistence.Provider.{ProviderState}
use completer.Actor.State.{Host, send, deactivate_self}
use completer.Actor.Updates.{update, graph_listener, persist_and_update}
use completer.Actor.Updates.Growth.{Grows, Grows-refl, Grows-trans}
use completer.Actor.Updates.Progress.{listener-Calls}
use completer.Actor.Updates.Total.{work-le}
use completer.Actor.Updates.Live.{IsLive, Moves-IsLive, live_call}

-- A committed graph has an unresolved stage, and a terminating one an unresolved hook: there is
-- something left that will bring about the next step of the lifecycle.
abbrev SettledIn : State → List CompletionStage → Type 0
SettledIn state_committed ss = get_pending_count main_exec_phase ss ≢ 0
SettledIn state_terminating ss = get_pending_count termination_exec_phase ss ≢ 0
SettledIn _ ss = Unit

abbrev pub IsSettled : {H : Type 0} → World H → Type 0
IsSettled w = SettledIn w.graph.state w.graph.stages

-- The events after which the handler looks whether the graph's work has ended.
abbrev pub IsChecked : Event → State → Type 0
IsChecked graph_committed s = s ≡ state_initial
IsChecked (graph_terminating status) s = s ≡ state_committed
IsChecked (stage_completed i r) s = Unit
IsChecked _ s = ⊥

module _ {J : Type 0} (P : ProviderState Event J) (range : ℕ → List ℕ → List ℕ) where
  abbrev checked : ℕ → World (Host J) → Outcome (World (Host J))
  checked fuel w =
      check_for_execution_finished range (graph_listener P range (update P range fuel)) w

  -- The end of a handler, after a part that moved the world.
  then_settle :
      (fuel : ℕ) (w : World (Host J)) (m : Outcome (World (Host J)))
      → IsLive w
      → work w.graph ≤ fuel
      → Ensures (Moves (Grows P) w) m
      → ((v : World (Host J)) → IsLive v → work v.graph ≤ fuel → Ensures IsSettled (checked fuel v))
      → Ensures IsSettled (m >>= checked fuel)
  then_settle fuel w m live less moved next =
      Ensures-bind (Moves (Grows P) w) IsSettled m (checked fuel) moved
        (λ v a. next v (Moves-IsLive P a live) (omega (arith, work_mono a.graph, less)))

  abbrev Settles : ℕ → Type 0
  Settles fuel =
      (w : World (Host J)) → IsLive w → work w.graph ≤ fuel → Ensures IsSettled (checked fuel w)

  settle_handle_terminating :
      (fuel : ℕ) (status : StatusDatumType) (b : Bool) (w : World (Host J))
      → Settles fuel
      → IsLive w
      → work w.graph ≤ suc fuel
      → w.graph.state ≡ state_committed
      → Ensures IsSettled
          (handle_terminating range (graph_listener P range (update P range fuel)) status b w)
  unfolding handle_terminating
  settle_handle_terminating fuel status b w rest live less e =
      let v = terminating (Grows P) (Grows-refl P) (Grows-trans P) status w in
      let L = graph_listener P range (update P range fuel) in
      let smaller : work v.graph ≤ fuel = ground (arith, e, less) in
      then_settle fuel v (trigger_if range L b v) live smaller
        (trigger_if-Moves (Grows P) (Grows-refl P) (Grows-trans P) range L fuel
          (listener-Calls P range fuel) b v smaller)
        rest

  settle_committed :
      (fuel : ℕ) (w : World (Host J))
      → Settles fuel
      → IsLive w
      → work w.graph ≤ suc fuel
      → w.graph.state ≡ state_committed
      → Ensures IsSettled
          ((graph_listener P range (update P range (suc fuel))).on_graph_execution_finished w)
  unfolding graph_listener update update_with_event
  settle_committed fuel w rest live less e = simp live (
      live_call P range (update P range (suc fuel)) (graph_terminating succeeded) w IsSettled live
        (λ h l b. settle_handle_terminating fuel succeeded b (record w { host = h }) rest l less e))

  IsSettled-at_end :
      (w : World (Host J)) (h : Host J)
      → w.graph.state ≡ state_completed
      → IsSettled (record w { host = h })
  IsSettled-at_end w h e = simp e tt

  IsSettled-start : (w : World (Host J)) → w.graph.state ≡ state_initial → IsSettled w
  IsSettled-start w e = simp e tt

  IsSettled-main :
      (w : World (Host J))
      → w.graph.state ≡ state_committed
      → (get_pending_count main_exec_phase w.graph.stages == 0) ≡ false
      → IsSettled w
  IsSettled-main w e q = simp e (λ z. ground (arith, q, z))

  IsSettled-hooks :
      (w : World (Host J))
      → w.graph.state ≡ state_terminating
      → (get_pending_count termination_exec_phase w.graph.stages == 0) ≡ false
      → IsSettled w
  IsSettled-hooks w e q = simp e (λ z. ground (arith, q, z))

  settle_terminating :
      (fuel : ℕ) (w : World (Host J))
      → IsLive w
      → Ensures IsSettled ((graph_listener P range (update P range (suc fuel))).on_graph_complete w)
  unfolding graph_listener update update_with_event handle_completed
  settle_terminating fuel w live = simp live (
      Ensures-bind (λ v. v.graph.state ≡ state_completed) IsSettled
        (persist_and_update P range (update P range (suc fuel)) graph_completed w) _
        (live_call P range (update P range (suc fuel)) graph_completed w
          (λ v. v.graph.state ≡ state_completed) live (λ h l b. refl))
        (λ v e. IsSettled-at_end v (send deactivate_self v.host) e))

  -- With no work left there is no lifecycle step left.
  settle_at :
      (fuel : ℕ) (s : State) (w : World (Host J))
      → w.graph.state ≡ s
      → ((f : ℕ) → suc f ≡ fuel → Settles f)
      → IsLive w
      → work w.graph ≤ fuel
      → Ensures IsSettled (checked fuel w)
  unfolding check_for_execution_finished
  settle_at fuel state_initial w e rest live less =
      rw (e, check_for_execution_finished) (IsSettled-start w e)
  settle_at fuel state_completed w e rest live less =
      rw (e, check_for_execution_finished) (IsSettled-at_end w w.host e)
  settle_at zero state_committed w e rest live less = absurd (ground (arith, e, less))
  settle_at zero state_terminating w e rest live less = absurd (ground (arith, e, less))
  settle_at (suc fuel) state_committed w e rest live less =
      elim (Bool-cases (get_pending_count main_exec_phase w.graph.stages == 0)) [
        | inl q ↦
            rw (e, q, check_for_execution_finished)
              (settle_committed fuel w (rest fuel refl) live less e)
        | inr q ↦ rw (e, q, check_for_execution_finished) (IsSettled-main w e q)
      ]
  settle_at (suc fuel) state_terminating w e rest live less =
      elim (Bool-cases (get_pending_count termination_exec_phase w.graph.stages == 0)) [
        | inl q ↦ rw (e, q, check_for_execution_finished) (settle_terminating fuel w live)
        | inr q ↦ rw (e, q, check_for_execution_finished) (IsSettled-hooks w e q)
      ]

  settle : (fuel : ℕ) → Settles fuel
  settle zero w = settle_at zero w.graph.state w refl (λ f e. absurd (omega arith))
  settle (suc fuel) w =
      settle_at (suc fuel) w.graph.state w refl
        (λ f e. subst Settles (omega (arith, e)) (settle fuel))

  settle_stage_completed :
      (fuel : ℕ) (i : ℕ) (r : CompletionResult) (b : Bool) (w : World (Host J))
      → IsLive w
      → Room (suc fuel) i w.graph
      → Ensures IsSettled
          (handle_stage_completed range (graph_listener P range (update P range fuel)) i r b w)
  unfolding handle_stage_completed
  settle_stage_completed fuel i r b w live room =
      let L = graph_listener P range (update P range fuel) in
      let calls = listener-Calls P range fuel in
      elim (Option-cases (get_stage w.graph.stages i)) [
        | inl e ↦ rw (e, handle_stage_completed) tt
        | inr (node, e) ↦
            let v = completed (Grows P) (Grows-refl P) (Grows-trans P) i r w in
            let less : work v.graph ≤ fuel =
              completed-work (Grows P) (Grows-refl P) (Grows-trans P) i r w room in
            rw (e, handle_stage_completed)
              (then_settle fuel v _ live less
                (then_Moves (Grows P) (Grows-refl P) (Grows-trans P) range L fuel calls v _
                  (trigger_if range L b) less
                  (compose_step-Moves (Grows P) (Grows-refl P) (Grows-trans P) range L fuel calls
                    node.compose_reference i v less)
                  (trigger_if-Moves (Grows P) (Grows-refl P) (Grows-trans P) range L fuel calls b))
                (settle fuel))
      ]

  settle_committed_event :
      (fuel : ℕ) (w : World (Host J))
      → IsLive w
      → work w.graph ≤ fuel
      → w.graph.state ≡ state_initial
      → Ensures IsSettled (handle_committed range (graph_listener P range (update P range fuel)) w)
  unfolding handle_committed
  settle_committed_event fuel w live less e =
      settle fuel
        (with_graph range (graph_listener P range (update P range fuel)) w
          (record w.graph { state = state_committed }))
        live (ground (arith, e, less))

  -- While its actor is not recovering, a flow does not get stuck at the end of its work: after an
  -- event that commits the graph, starts its termination or resolves a stage, with enough fuel, a
  -- committed graph still has an unresolved stage of the main phase and a terminating one an
  -- unresolved termination hook, and otherwise its lifecycle has moved on; unless there was a
  -- panic.
  pub update-IsSettled :
      (fuel : ℕ) (e : Event) (may_trigger : Bool) (w : World (Host J))
      → 2 * length w.graph.stages + 5 ≤ fuel
      → IsLive w
      → IsChecked e w.graph.state
      → Ensures IsSettled (update P range fuel e may_trigger w)
  unfolding update update_with_event
  update-IsSettled zero e b w h live due = absurd (omega arith)
  update-IsSettled (suc fuel) graph_committed b w h live due =
      settle_committed_event fuel w live (omega (arith, work-le w.graph, h)) due
  update-IsSettled (suc fuel) (graph_terminating status) b w h live due =
      settle_handle_terminating fuel status b w (settle fuel) live
        (omega (arith, work-le w.graph, h)) due
  update-IsSettled (suc fuel) (stage_completed i r) b w h live due =
      let less : work w.graph < suc fuel = omega (arith, work-le w.graph, h) in
      settle_stage_completed fuel i r b w live (record { enough = omega arith; room = inr less })
  update-IsSettled (suc fuel) _ b w h live due = elim due [ ]
