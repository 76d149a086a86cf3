-- ===== src/Actor/Commands/Following.antt =====
-- What a validated command does to the graph is what the events that it journals stand for
-- (receiveCommand of actor/graph.go).
use completer.Prelude.{
  ℕ, ◌+◌, refl, inl, inr, List, Outcome, ◌>>=◌, Whenever, Bool-cases, Option-cases,
}
use completer.Model.Event
use completer.Model.Event.{
  Event, graph_created, graph_committed, delay_scheduled, stage_added, stage_completed,
  faas_invocation_started, faas_invocation_completed, completed_value, delay,
}
use completer.Model.Command.{Command}
use completer.Graph.Stage.{get_stage, next_stage_id, is_resolved}
use completer.Graph.Engine.{World}
use completer.Graph.Replay.{effect, Continues}
use completer.Graph.Replay.Following.{follow_on, Follows-refl}
use completer.Persistence.Provider.{ProviderState}
use completer.Actor.State.{Host, Message}
use completer.Actor.Updates.{persist}
use completer.Actor.Updates.Sourcing.{
  Follows, Follows-IsBlind, send-Follows, persist-Follows, apply_event-Follows,
}
use completer.Actor.Commands.{apply_event, respond, run_command, is_committed, add_plain_stage}

module _ {J : Type 0} (P : ProviderState Event J) (range : ℕ → List ℕ → List ℕ) (fuel : ℕ) where
  then_on :
      (w : World (Host J)) (m : Outcome (World (Host J)))
      (f : World (Host J) → Outcome (World (Host J)))
      → Whenever (Follows P range w) m
      → ((v : World (Host J)) → Whenever (Follows P range v) (f v))
      → Whenever (Follows P range w) (m >>= f)
  then_on = follow_on (Follows P range) (Follows-IsBlind P range)

  same : (w : World (Host J)) → Follows P range w w
  same = Follows-refl (Follows P range) (Follows-IsBlind P range)

  sends :
      (m : Message) (w : World (Host J)) → Whenever (Follows P range w) (respond P range fuel m w)
  sends m w = send-Follows P range m w w (same w)

  applies :
      (e : Event) (w : World (Host J))
      → Continues e
      → Whenever (Follows P range w) (apply_event P range fuel e w)
  unfolding apply_event
  applies e w c = apply_event-Follows P range fuel e w c

  pub run_command-Follows :
      (now later : ℕ) (c : Command) (w : World (Host J))
      → Whenever (Follows P range w) (run_command P range fuel now later c w)
  unfolding run_command
  run_command-Follows now later Command.get_graph_state w = sends _ w
  run_command-Follows now later (Command.add_stage m) w =
      then_on w (apply_event P range fuel _ w) _ (applies _ w tt) (sends _)
  run_command-Follows now later (Command.add_completed_value_stage value) w =
      then_on w (apply_event P range fuel _ w >>= apply_event P range fuel _) _
        (then_on w (apply_event P range fuel _ w) _ (applies _ w tt) (λ v. applies _ v tt))
        (sends _)
  run_command-Follows now later (Command.add_delay_stage ms) w =
      then_on w
        (add_plain_stage P range fuel delay w
          >>= persist P range (delay_scheduled (next_stage_id w.graph) (now + ms)))
        _
        (then_on w (add_plain_stage P range fuel delay w) _ (applies _ w tt) (λ v.
          persist-Follows P range (delay_scheduled (next_stage_id w.graph) (now + ms)) v tt
            (unfold effect in refl)))
        (λ v. send-Follows P range _ v _ (send-Follows P range _ v v (same v)))
  run_command-Follows now later (Command.add_invoke_function_stage f arg) w =
      then_on w
        (add_plain_stage P range fuel Event.invoke_function w
          >>= persist P range (faas_invocation_started (next_stage_id w.graph) f)
          >>= _)
        _
        (then_on w
          (add_plain_stage P range fuel Event.invoke_function w
            >>= persist P range (faas_invocation_started (next_stage_id w.graph) f))
          _
          (then_on w (add_plain_stage P range fuel Event.invoke_function w) _ (applies _ w tt) (λ v.
            persist-Follows P range (faas_invocation_started (next_stage_id w.graph) f) v tt
              (unfold effect in refl)))
          (sends _))
        (sends _)
  run_command-Follows now later (Command.complete_stage_externally i value) w =
      elim (Option-cases (get_stage w.graph.stages i)) [
        | inl e ↦ rw (e, run_command) tt
        | inr (s, e) ↦
            rw (e, run_command)
              (elim (Bool-cases (is_resolved s.result)) [
                | inl q ↦ rw q (sends _ w)
                | inr q ↦
                    rw q (then_on w (apply_event P range fuel _ w) _ (applies _ w tt) (sends _))
              ])
      ]
  run_command-Follows now later Command.commit_graph w =
      elim (Bool-cases (is_committed w.graph.state)) [
        | inl q ↦ rw (q, run_command) (sends _ w)
        | inr q ↦
            rw (q, run_command)
              (then_on w (apply_event P range fuel _ w >>= _) _
                (then_on w (apply_event P range fuel _ w) _ (applies _ w tt) (sends _)) (sends _))
      ]
  run_command-Follows now later (Command.await_stage_result i) w =
      elim (Option-cases (get_stage w.graph.stages i)) [
        | inl e ↦ rw (e, run_command) tt
        | inr (s, e) ↦ rw (e, run_command) (sends _ w)
      ]
  run_command-Follows now later (Command.complete_delay_stage i result) w =
      elim (Option-cases (get_stage w.graph.stages i)) [
        | inl e ↦ rw (e, run_command) (applies _ w tt)
        | inr (s, e) ↦
            rw (e, run_command)
              (elim (Bool-cases (is_resolved s.result)) [
                | inl q ↦ rw q (same w)
                | inr q ↦ rw q (applies _ w tt)
              ])
      ]
  run_command-Follows now later (Command.faas_invocation_response i result call_id) w =
      applies _ w tt
  run_command-Follows now later Command.deactivate_graph w = sends _ w
  run_command-Follows now later (Command.create_graph f) w = same w
