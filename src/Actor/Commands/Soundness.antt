-- ===== src/Actor/Commands/Soundness.antt =====
-- Every command keeps the flow's keys in order (receiveCommand of actor/graph.go).
use completer.Prelude.{
  ℕ, ◌≤◌, ◌≡◌, refl, inl, inr, List, [], none, some, false, not, arith, Outcome, done, panicked,
  out_of_fuel, Ensures, Ensures-mono, Ensures-bind, ◌>>=◌, length, Bool-cases, Option-cases,
}
use completer.Model.Event.{Event, CompletionOperation, stage_added}
use completer.Model.Command.{AddStage, Command, add_stage, add_stage_command}
use completer.Graph.Stage.{CompletionGraph}
use completer.Graph.Engine.{
  World, is_termination_hook, validate_stages, update_with_event, handle_add_termination_hook,
}
use completer.Graph.Validate.Hooks.{handle_add_termination_hook-IsNumbered}
use completer.Graph.Validate.{validate_command, validate_add_stage, max_stages}
use completer.Graph.Validate.Acceptance.{IsNumbered, stage_of, validate_command-Accepted}
use completer.Graph.Progress.Listener.{Moves}
use completer.Persistence.Provider.{ProviderState}
use completer.Persistence.Mixin.{Mixin, persist_receive}
use completer.Actor.State.{Host, replies}
use completer.Actor.Updates.Growth.{replies-Grows}
use completer.Actor.Updates.{update, persist, persist_and_update}
use completer.Actor.Updates.Progress.{call-Moves, persist_receive-ends}
use completer.Actor.Updates.Total.{IsDue, update-Moves}
use completer.Actor.Updates.Keys.{update-stage_of, StagesAdvance-IsNumbered, StagesAdvance-length}
use completer.Actor.Commands.{apply_event}

-- The keys of the stages are below their number, which is at most the limit.
abbrev pub IsSound : {H : Type 0} → World H → Type 0
IsSound w = IsNumbered w.graph.stages × (length w.graph.stages ≤ max_stages)

-- A later world that is sound too, and in which nothing more was answered.
abbrev pub Stays : {J : Type 0} (w v : World (Host J)) → Type 0
Stays w v = IsSound v × (replies v.host.sent ≡ replies w.host.sent)

module _ {J : Type 0} (P : ProviderState Event J) (range : ℕ → List ℕ → List ℕ) where
  -- Journaling an event changes the host only.
  persist-Ensures :
      (e : Event) (w : World (Host J)) (f : World (Host J) → Outcome (World (Host J)))
      (Q : World (Host J) → Type 0)
      → ((x : Mixin J) → Ensures Q (f (record w { host = record w.host { mixin = x } })))
      → Ensures Q (persist P range e w >>= f)
  unfolding persist
  persist-Ensures e w f Q next =
      after (persist_receive P e w.host.mixin) (persist_receive-ends P range e w.host.mixin)
    where
      after :
          (m : Outcome (Mixin J))
          → Ensures (λ x. Unit {0}) m
          → Ensures Q (m >>= (λ x. done (record w { host = record w.host { mixin = x } })) >>= f)
      after (done x) ends = next _
      after (panicked p) ends = tt
      after out_of_fuel ends = ends

  pub apply_due-Stays :
      (e : Event) (w : World (Host J))
      → IsSound w
      → IsDue e w.graph.state
      → Ensures (Stays w) (apply_event P range 2005 e w)
  unfolding apply_event
  apply_due-Stays e w sound due =
      Ensures-mono (Moves _ w) (Stays w) (persist_and_update P range (update P range 2005) e w)
        (call-Moves P range (update P range 2005) e w (λ b h.
          update-Moves P range 2005 e b (record w { host = h }) (omega (arith, sound.1)) due))
        (λ v a. (
          (
            StagesAdvance-IsNumbered w.graph.stages v.graph.stages a.graph.stages sound.0,
            omega
                (arith, sound.1, StagesAdvance-length w.graph.stages v.graph.stages a.graph.stages),
          ),
          replies-Grows P w.host v.host a.host,
        ))

  pub apply_stage_of-Stays :
      (w : World (Host J)) (m : AddStage)
      → is_termination_hook m.operation ≡ false
      → IsSound w
      → validate_command w.graph (add_stage m) ≡ none
      → Ensures (Stays w) (apply_event P range 2005 (stage_added (stage_of w.graph m)) w)
  unfolding apply_event persist_and_update
  apply_stage_of-Stays w m plain sound ok =
      persist-Ensures (stage_added (stage_of w.graph m)) w _ (Stays w) (λ x.
        let h = record w.host { mixin = x } in
        Ensures-mono _ (Stays w) _
          (update-stage_of P range (not x.recovering) (record w { host = h }) m plain sound.0 ok)
          (λ v a. ((a.0, a.2), replies-Grows P h v.host a.3)))

-- A command that adds a stage without closure or dependencies is checked as a request would be.
abbrev pub plain_request : CompletionOperation → AddStage
plain_request op = record { operation = op; closure = none; deps = [] }

pub validate_command-plain_request :
    (g : CompletionGraph) (c : Command) (op : CompletionOperation)
    → add_stage_command c
      ≡ some (record { operation = op; dependency_count = 0; has_closure = false })
    → validate_command g c ≡ none
    → validate_command g (add_stage (plain_request op)) ≡ none
unfolding validate_command validate_stages
validate_command-plain_request g c op e h =
    elim (Option-cases (
      validate_add_stage g
        (record { operation = op; dependency_count = 0; has_closure = false }))) [
          | inl q ↦ rw (q, validate_command) refl
          | inr (x, q) ↦ absurd (ground (arith, e, q, h))
        ]

module _ {J : Type 0} (P : ProviderState Event J) (range : ℕ → List ℕ → List ℕ) where
  pub apply_request-Stays :
      (w : World (Host J)) (m : AddStage)
      → IsSound w
      → validate_command w.graph (add_stage m) ≡ none
      → Ensures (Stays w) (apply_event P range 2005 (stage_added (stage_of w.graph m)) w)
  unfolding apply_event persist_and_update update update_with_event
  apply_request-Stays w m sound ok = elim (Bool-cases (is_termination_hook m.operation)) [
    | inr q ↦ apply_stage_of-Stays P range w m q sound ok
    | inl q ↦
        let room = (validate_command-Accepted w.graph m ok).room in
        persist-Ensures P range (stage_added (stage_of w.graph m)) w _ (Stays w) (λ x. simp q (
          Ensures-bind _ (Stays w) (handle_add_termination_hook (stage_of w.graph m) w.graph) _
            (handle_add_termination_hook-IsNumbered (stage_of w.graph m) w.graph refl sound.0)
            (λ k a. ((a.0, omega (arith, a.1, room)), refl))))
  ]
