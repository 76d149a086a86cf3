-- ===== src/Actor/Commands/Handling.antt =====
-- The handling of a validated command, and its answer (receiveCommand of actor/graph.go).
use completer.Prelude.{
  ℕ, ◌+◌, ◌≡◌, refl, inl, inr, List, none, some, true, false, done, done, Ensures, ◌>>=◌,
  Bool-cases, Option-cases,
}
use completer.Model.Event
use completer.Model.Event.{
  Event, CompletionOperation, stage_added, stage_completed, graph_committed, graph_created,
  faas_invocation_completed, delay_scheduled, faas_invocation_started, completed_value, delay,
}
use completer.Model.Command.{Command, add_stage_command}
use completer.Graph.Stage.{
  State, state_initial, get_stage, is_resolved, next_stage_id, state_committed, state_terminating,
  state_completed,
}
use completer.Graph.Engine.{World}
use completer.Graph.Validate.{validate_command}
use completer.Graph.Validate.Acceptance.{stage_of}
use completer.Persistence.Provider.{ProviderState}
use completer.Actor.State.{Host, deactivate_parent, respond_added}
use completer.Actor.Updates.{persist}
use completer.Actor.Commands.Answers.{
  Answers, accepts, persist-Stays, in_turn, in_turn-Stays, Answers-Stays, Answers-send, Stays-send,
}
use completer.Actor.Commands.{
  apply_event, respond, schedule_delay, run_command, validate_cmd, is_committed,
}
use completer.Actor.Commands.Soundness.{
  IsSound, Stays, apply_due-Stays, apply_request-Stays, plain_request,
  validate_command-plain_request,
}

is_committed-initial : (s : State) → is_committed s ≡ false → s ≡ state_initial
unfolding is_committed
is_committed-initial state_initial h = refl
is_committed-initial state_committed h = absurd (cc)
is_committed-initial state_terminating h = absurd (cc)
is_committed-initial state_completed h = absurd (cc)

module _ {J : Type 0} (P : ProviderState Event J) (range : ℕ → List ℕ → List ℕ) where
  -- A stage is added without closure and dependencies.
  plain_stage-Stays :
      (op : CompletionOperation) (c : Command) (w : World (Host J))
      → add_stage_command c
        ≡ some (record { operation = op; dependency_count = 0; has_closure = false })
      → IsSound w
      → validate_command w.graph c ≡ none
      → Ensures
          (Stays w)
          (apply_event P range 2005 (stage_added (stage_of w.graph (plain_request op))) w)
  plain_stage-Stays op c w e sound ok =
      apply_request-Stays P range w (plain_request op) sound
        (validate_command-plain_request w.graph c op e ok)

  -- The command is answered as it is accepted to be.
  abbrev pub Answered : Command → World (Host J) → World (Host J) → Type 0
  Answered c = Answers (λ ms. accepts c ms ≡ true)

  pub run_command-Answered :
      (now later : ℕ) (c : Command) (w : World (Host J))
      → IsSound w
      → validate_command w.graph c ≡ none
      → validate_cmd (some w.graph) c ≡ none
      → Ensures (Answered c w) (run_command P range 2005 now later c w)
  unfolding run_command accepts schedule_delay
  run_command-Answered now later Command.get_graph_state w sound ok valid =
      Answers-send P range _ _ w sound refl
  run_command-Answered now later (Command.add_stage m) w sound ok valid =
      in_turn P range _ w (apply_event P range 2005 _ w) _
        (apply_request-Stays P range w m sound ok) (λ v a. Answers-send P range _ _ v a refl)
  run_command-Answered now later (Command.add_completed_value_stage value) w sound ok valid =
      in_turn P range _ w (apply_event P range 2005 _ w >>= apply_event P range 2005 _) _
        (in_turn-Stays P range w (apply_event P range 2005 _ w) _
          (plain_stage-Stays completed_value (Command.add_completed_value_stage value) w
            (unfold add_stage_command in refl) sound ok)
          (λ v a. apply_due-Stays P range (stage_completed (next_stage_id w.graph) value) v a tt))
        (λ v a. Answers-send P range _ _ v a refl)
  run_command-Answered now later (Command.add_delay_stage ms) w sound ok valid =
      in_turn P range _ w (apply_event P range 2005 _ w >>= persist P range _) _
        (in_turn-Stays P range w (apply_event P range 2005 _ w) _
          (plain_stage-Stays delay (Command.add_delay_stage ms) w (unfold add_stage_command in refl)
            sound ok)
          (λ v a. persist-Stays P range (delay_scheduled (next_stage_id w.graph) (now + ms)) v a))
        (λ v a.
          in_turn P range (λ out. accepts (Command.add_delay_stage ms) out ≡ true) v
            (done
              (record v { host = schedule_delay later (next_stage_id w.graph) (now + ms) v.host }))
            (respond P range 2005 (respond_added (next_stage_id w.graph)))
            (Stays-send P range _ v refl a)
            (λ u d. Answers-send P range _ (respond_added (next_stage_id w.graph)) u d refl))
  run_command-Answered now later (Command.add_invoke_function_stage f arg) w sound ok valid =
      in_turn P range _ w (apply_event P range 2005 _ w >>= persist P range _ >>= _) _
        (in_turn-Stays P range w (apply_event P range 2005 _ w >>= persist P range _) _
          (in_turn-Stays P range w (apply_event P range 2005 _ w) _
            (plain_stage-Stays Event.invoke_function (Command.add_invoke_function_stage f arg) w
              (unfold add_stage_command in refl) sound ok)
            (λ v a. persist-Stays P range (faas_invocation_started (next_stage_id w.graph) f) v a))
          (λ v a. Stays-send P range _ v refl a))
        (λ v a. Answers-send P range _ _ v a refl)
  run_command-Answered now later (Command.complete_stage_externally i value) w sound ok valid =
      elim (Option-cases (get_stage w.graph.stages i)) [
        | inl e ↦ rw (e, run_command) tt
        | inr (s, e) ↦
            rw (e, run_command)
              (elim (Bool-cases (is_resolved s.result)) [
                | inl q ↦ rw q (Answers-send P range _ _ w sound refl)
                | inr q ↦ rw q (
                    in_turn P range _ w (apply_event P range 2005 _ w) _
                      (apply_due-Stays P range (stage_completed i value) w sound tt)
                      (λ v a. Answers-send P range _ _ v a refl))
              ])
      ]
  run_command-Answered now later Command.commit_graph w sound ok valid =
      elim (Bool-cases (is_committed w.graph.state)) [
        | inl q ↦ rw (q, run_command) (Answers-send P range _ _ w sound refl)
        | inr q ↦
            rw (q, run_command)
              (in_turn P range _ w (apply_event P range 2005 _ w >>= _) _
                (in_turn-Stays P range w (apply_event P range 2005 _ w) _
                  (apply_due-Stays P range graph_committed w sound
                    (is_committed-initial w.graph.state q))
                  (λ v a. Stays-send P range _ v refl a))
                (λ v a. Answers-send P range _ _ v a refl))
      ]
  run_command-Answered now later (Command.await_stage_result i) w sound ok valid =
      elim (Option-cases (get_stage w.graph.stages i)) [
        | inl e ↦ rw (e, run_command) tt
        | inr (s, e) ↦ rw (e, run_command) (Answers-send P range _ _ w sound refl)
      ]
  run_command-Answered now later (Command.complete_delay_stage i result) w sound ok valid =
      Answers-Stays P range _ w
        (run_command P range 2005 now later (Command.complete_delay_stage i result) w) refl
        (elim (Option-cases (get_stage w.graph.stages i)) [
          | inl e ↦
              rw (e, run_command) (apply_due-Stays P range (stage_completed i result) w sound tt)
          | inr (s, e) ↦
              rw (e, run_command)
                (elim (Bool-cases (is_resolved s.result)) [
                  | inl q ↦ rw q (sound, refl)
                  | inr q ↦ rw q (apply_due-Stays P range (stage_completed i result) w sound tt)
                ])
        ])
  run_command-Answered now later (Command.faas_invocation_response i result call_id) w sound ok
        valid =
      Answers-Stays P range _ w (apply_event P range 2005 _ w) refl
        (apply_due-Stays P range (faas_invocation_completed i result call_id) w sound tt)
  run_command-Answered now later Command.deactivate_graph w sound ok valid =
      Answers-Stays P range (λ ms. accepts Command.deactivate_graph ms ≡ true) w
        (run_command P range 2005 now later Command.deactivate_graph w) refl
        (Stays-send P range deactivate_parent w refl sound)
  run_command-Answered now later (Command.create_graph f) w sound ok valid =
      absurd (unfold validate_cmd in cc)
