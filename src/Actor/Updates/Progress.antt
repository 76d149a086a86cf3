-- ===== src/Actor/Updates/Progress.antt =====
-- The actor's calls from the graph back into the graph: each event applied, with enough fuel, ends,
-- advances the graph, and grows the journal and the messages sent.
use mathlib.Core.List.{append-nil}
use completer.Prelude.{
  sym, Ensures-eq, panicked, out_of_fuel, ℕ, zero, suc, refl, inl, inr, List, [], ◌∷◌, Bool, false,
  ◌≡◌, not, arith, Outcome, done, Ensures, ◌>>=◌, Bool-cases, if◌then◌else◌,
}
use completer.Model.Datum.{CompletionResult, succeeded}
use completer.Model.Event.{
  Event, stage_completed, stage_composed, graph_terminating, graph_completed,
  faas_invocation_started,
}
use completer.Graph.Stage.{CompletionStage}
use completer.Graph.Engine.{World, Listener, update_with_event, handle_completed}
use completer.Graph.Progress.{GraphAdvances-refl, StagesAdvance-refl, stage_work-le}
use completer.Graph.Progress.Listener.{Room, Moves, Calls, Moves-refl, Moves-trans, then_call}
use completer.Graph.Progress.Handlers.{handle_stage_completed-Moves, handle_terminating-Moves}
use completer.Graph.Progress.Results.{handle_stage_composed-Moves}
use completer.Persistence.Provider.{ProviderState}
use completer.Persistence.Mixin.{Mixin, persist_receive}
use completer.Actor.State.{Host, Message, is_reply, send, deactivate_self}
use completer.Actor.Updates.{persist, persist_and_update, on_execute_stage, graph_listener, update}
use completer.Actor.Updates.Growth.{persist_all, Grows, Grows-refl, Grows-trans}

module _ {J : Type 0} (P : ProviderState Event J) (range : ℕ → List ℕ → List ℕ) where
  -- Sending a message that is no reply grows the host.
  send-Grows : (m : Message) (h : Host J) → is_reply m ≡ false → Grows P h (send m h)
  unfolding persist_all
  send-Grows m h q = record {
    events = [];
    messages = m ∷ [];
    journaled = refl;
    sent = refl;
    quiet = (q, tt);
  }

  pub persist_receive-ends : (e : Event) (x : Mixin J) → Ensures (λ y. Unit) (persist_receive P e x)
  unfolding persist_receive
  persist_receive-ends e x = ground arith

  pub persist_receive-Grows :
      (e : Event) (h : Host J)
      → Ensures (λ x. Grows P h (record h { mixin = x })) (persist_receive P e h.mixin)
  unfolding persist_all
  persist_receive-Grows e h =
      Ensures-eq _ (persist_receive P e h.mixin) (persist_receive-ends e h.mixin) (λ x q. record {
        events = e ∷ [];
        messages = [];
        journaled = rw q refl;
        sent = sym (append-nil h.sent);
        quiet = tt;
      })

  host-Moves :
      (w : World (Host J)) (h : Host J)
      → Grows P w.host h
      → Moves (Grows P) w (record w { host = h })
  host-Moves w h g = record { graph = GraphAdvances-refl w.graph; host = g }

  -- Journaling an event leaves the graph alone.
  persist_then :
      (e : Event) (w : World (Host J)) (f : World (Host J) → Outcome (World (Host J)))
      → ((h : Host J)
          → Ensures (Moves (Grows P) (record w { host = h })) (f (record w { host = h })))
      → Ensures (Moves (Grows P) w) (persist P range e w >>= f)
  unfolding persist
  persist_then e w f next =
      after (persist_receive P e w.host.mixin) (persist_receive-Grows e w.host)
    where
      after :
          (m : Outcome (Mixin J))
          → Ensures (λ x. Grows P w.host (record w.host { mixin = x })) m
          → Ensures
              (Moves (Grows P) w)
              (m >>= (λ x. done (record w { host = record w.host { mixin = x } })) >>= f)
      after (done x) g =
          then_call (Grows P) (Grows-refl P) (Grows-trans P) w _ _ (host-Moves w _ g) (next _)
      after (panicked p) g = tt
      after out_of_fuel g = g

  pub call-Moves :
      (up : Event → Bool → World (Host J) → Outcome (World (Host J))) (e : Event)
      (w : World (Host J))
      → ((b : Bool) (h : Host J)
          → Ensures (Moves (Grows P) (record w { host = h })) (up e b (record w { host = h })))
      → Ensures (Moves (Grows P) w) (persist_and_update P range up e w)
  unfolding persist_and_update
  call-Moves up e w next =
      persist_then e w (λ v. up e (not v.host.mixin.recovering) v) (λ h. next _ h)

  on_execute_stage-Moves :
      (s : CompletionStage) (rs : List CompletionResult) (w : World (Host J))
      → Ensures (Moves (Grows P) w) (on_execute_stage P range s rs w)
  unfolding on_execute_stage
  on_execute_stage-Moves s rs w =
      persist_then (faas_invocation_started s.id w.graph.function_id) w _
        (λ h. host-Moves (record w { host = h }) _ (send-Grows _ h refl))

  -- With no work left there is no call to make.
  no-Room : (i : ℕ) (w : World (Host J)) → ¬ (Room 0 i w.graph)
  no-Room i w room = elim room.room [
    | inl (s, found, fresh) ↦
        absurd (ground (arith, stage_work-le w.graph.stages i s found, fresh, room.enough))
    | inr less ↦ absurd (omega arith)
  ]

  unless_recovering :
      (w : World (Host J)) (m : Outcome (World (Host J)))
      → Ensures (Moves (Grows P) w) m
      → Ensures (Moves (Grows P) w) (if w.host.mixin.recovering then done w else m)
  unless_recovering w m h = elim (Bool-cases w.host.mixin.recovering) [
    | inl e ↦ simp e (Moves-refl (Grows P) (Grows-refl P) (Grows-trans P) w)
    | inr e ↦ simp e h
  ]

  then_send :
      (w : World (Host J)) (m : Outcome (World (Host J))) (t : Message)
      → is_reply t ≡ false
      → Ensures (Moves (Grows P) w) m
      → Ensures (Moves (Grows P) w) (m >>= λ v. done (record v { host = send t v.host }))
  then_send w (done v) t q h =
      Moves-trans (Grows P) (Grows-refl P) (Grows-trans P) w v _ h
        (host-Moves v _ (send-Grows t v.host q))
  then_send w (panicked p) t q h = tt
  then_send w out_of_fuel t q h = h

  pub completes-Moves :
      (L : Listener (Host J)) (w : World (Host J))
      → Ensures (Moves (Grows P) w) (handle_completed range L w)
  unfolding handle_completed
  completes-Moves L w = record {
    graph = record {
      stages = StagesAdvance-refl w.graph.stages;
      state = omega arith;
      same_function = refl;
    };
    host = Grows-refl P w.host;
  }

  -- The calls of the actor as a listener, with `fuel` calls left.
  pub listener-Calls :
      (fuel : ℕ) → Calls (Grows P) fuel (graph_listener P range (update P range fuel))
  unfolding graph_listener update update_with_event
  listener-Calls zero = record {
    execute = on_execute_stage-Moves;
    complete = λ s r w room. absurd (no-Room s.id w room);
    compose = λ s t w h. absurd (omega arith);
    finish = λ w h e. absurd (ground (arith, e));
    close = λ w h e. absurd (ground (arith, e));
  }
  listener-Calls (suc fuel) = record {
    execute = on_execute_stage-Moves;
    complete = λ s r w room.
        call-Moves (update P range (suc fuel)) (stage_completed s.id r) w (λ b h.
          handle_stage_completed-Moves (Grows P) (Grows-refl P) (Grows-trans P) range
            (graph_listener P range (update P range fuel)) fuel (listener-Calls fuel) s.id r b
            (record w { host = h }) (record { enough = room.enough; room = room.room }));
    compose = λ s t w less.
        call-Moves (update P range (suc fuel)) (stage_composed s.id t.id) w (λ b h.
          handle_stage_composed-Moves (Grows P) (Grows-refl P) (Grows-trans P) range
            (graph_listener P range (update P range fuel)) fuel (listener-Calls fuel) s.id t.id
            (record w { host = h }) (omega arith));
    finish = λ w less e. unless_recovering w _ (
        call-Moves (update P range (suc fuel)) (graph_terminating succeeded) w (λ b h.
          handle_terminating-Moves (Grows P) (Grows-refl P) (Grows-trans P) range
            (graph_listener P range (update P range fuel)) fuel (listener-Calls fuel) succeeded b
            (record w { host = h }) less e));
    close = λ w less e. unless_recovering w _ (
        then_send w _ deactivate_self refl (
          call-Moves (update P range (suc fuel)) graph_completed w
            (λ b h. completes-Moves _ (record w { host = h }))));
  }
