-- ===== src/Actor/Updates/Sourcing.antt =====
-- A flow is the fold of its journal: what the actor's updates do to its graph is what the events
-- that they journal stand for (persistAndUpdateGraph and the listener of actor/graph.go).
use completer.Prelude.{
  ℕ, zero, suc, ◌≡◌, refl, sym, ap, List, [], ◌∷◌, ◌++◌, Bool, not, Bool-cases, inl, inr,
  if◌then◌else◌, Outcome, done, panicked, out_of_fuel, ◌>>=◌, for_each, for_each-append, Whenever,
  Whenever-bind, Whenever-eq, Whenever-mono, All, All-append,
}
use completer.Model.Datum.{CompletionResult, succeeded}
use completer.Model.Event.{
  Event, graph_terminating, graph_completed, stage_completed, stage_composed,
  faas_invocation_started,
}
use completer.Graph.Stage.{CompletionStage, CompletionGraph}
use completer.Graph.Engine.{World}
use completer.Graph.Replay.{forget, effect, Continues}
use completer.Graph.Replay.Following.{IsBlind, Obeys}
use completer.Graph.Replay.Enacting.{Enacts, update_with_event-Enacts}
use completer.Persistence.Provider.{ProviderState}
use completer.Persistence.Mixin.{Mixin, persist_receive}
use completer.Actor.State.{Host, Message, send, invoke_stage, deactivate_self}
use completer.Actor.Updates.{persist, persist_and_update, on_execute_stage, graph_listener, update}
use completer.Actor.Updates.Growth.{persist_all, persist_all-append}

module _ {J : Type 0} (P : ProviderState Event J) (range : ℕ → List ℕ → List ℕ) where
  -- The later world journals some events, and its graph is the fold of them.
  pub record Follows (w v : World (Host J)) : Type 0 where
    pub events : List Event
    pub journaled : persist_all P events w.host.mixin ≡ done v.host.mixin
    pub continuing : All Continues events
    pub folded : for_each effect events (forget w.graph) ≡ done (forget v.graph)

  pub Follows-IsBlind : IsBlind Follows
  unfolding persist_all for_each
  Follows-IsBlind = record {
    stays = λ w g same. record {
      events = [];
      journaled = refl;
      continuing = tt;
      folded = ap done (sym same);
    };
    trans = λ w v u p q. record {
      events = p.events ++ q.events;
      journaled =
          persist_all-append P p.events q.events w.host.mixin v.host.mixin u.host.mixin p.journaled
            q.journaled;
      continuing = All-append _ p.events q.events p.continuing q.continuing;
      folded = rw (for_each-append effect p.events q.events (forget w.graph), p.folded) q.folded;
    };
  }

  -- Sending changes neither the journal nor the graph.
  pub send-Follows :
      (m : Message) (w v : World (Host J))
      → Follows w v
      → Follows w (record v { host = send m v.host })
  send-Follows m w v a = record {
    events = a.events;
    journaled = a.journaled;
    continuing = a.continuing;
    folded = a.folded;
  }

  -- An event is journaled before it has its effect.
  pub journaled-Follows :
      (e : Event) (w v : World (Host J)) (x : Mixin J) (g : CompletionGraph)
      → Continues e
      → persist_receive P e w.host.mixin ≡ done x
      → effect e (forget w.graph) ≡ done (forget g)
      → Follows (record { graph = g; host = record w.host { mixin = x } }) v
      → Follows w v
  unfolding persist_all for_each
  journaled-Follows e w v x g c p h a = record {
    events = e ∷ a.events;
    journaled = rw p a.journaled;
    continuing = (c, a.continuing);
    folded = rw h a.folded;
  }

  abbrev pub IsEnacting : (Event → Bool → World (Host J) → Outcome (World (Host J))) → Type 0
  IsEnacting u =
      (e : Event) (b : Bool) (w : World (Host J)) → Whenever (Enacts Follows e w) (u e b w)

  pub persist-Follows :
      (e : Event) (w : World (Host J))
      → Continues e
      → effect e (forget w.graph) ≡ done (forget w.graph)
      → Whenever (Follows w) (persist P range e w)
  unfolding persist
  persist-Follows e w c idle =
      Whenever-bind (λ x. persist_receive P e w.host.mixin ≡ done x) (Follows w)
        (persist_receive P e w.host.mixin) _ (Whenever-eq (persist_receive P e w.host.mixin))
        (λ x p. journaled-Follows e w _ x w.graph c p idle (Follows-IsBlind.stays _ w.graph refl))

  persist_and_update-Follows :
      (u : Event → Bool → World (Host J) → Outcome (World (Host J)))
      → IsEnacting u
      → (e : Event) (w : World (Host J)) → Continues e
      → Whenever (Follows w) (persist_and_update P range u e w)
  unfolding persist_and_update persist
  persist_and_update-Follows u enacting e w c = first (persist_receive P e w.host.mixin) refl
    where
      first :
          (m : Outcome (Mixin J))
          → persist_receive P e w.host.mixin ≡ m
          → Whenever (Follows w) (
              m >>= (λ x. done (record w { host = record w.host { mixin = x } })) >>= λ v.
              u e (not v.host.mixin.recovering) v)
      first (done x) p =
          Whenever-mono _ (Follows w) (u e (not x.recovering) _) (enacting e (not x.recovering) _)
            (λ v a. journaled-Follows e w v x a.graph c p a.effected a.followed)
      first (panicked q) p = tt
      first out_of_fuel p = tt

  on_execute_stage-Follows :
      (s : CompletionStage) (rs : List CompletionResult) (w : World (Host J))
      → Whenever (Follows w) (on_execute_stage P range s rs w)
  unfolding on_execute_stage
  on_execute_stage-Follows s rs w =
      Whenever-bind (Follows w) (Follows w)
        (persist P range (faas_invocation_started s.id w.graph.function_id) w) _
        (persist-Follows (faas_invocation_started s.id w.graph.function_id) w tt
          (unfold effect in refl))
        (λ v a. send-Follows (invoke_stage v.graph.function_id s.id rs s.closure) w v a)

  graph_listener-Obeys :
      (u : Event → Bool → World (Host J) → Outcome (World (Host J)))
      → IsEnacting u
      → Obeys Follows (graph_listener P range u)
  unfolding graph_listener
  graph_listener-Obeys u enacting = record {
    execute = on_execute_stage-Follows;
    complete = λ s r w. persist_and_update-Follows u enacting (stage_completed s.id r) w tt;
    compose = λ s t w. persist_and_update-Follows u enacting (stage_composed s.id t.id) w tt;
    finish = λ w.
        unless_recovering w _
          (persist_and_update-Follows u enacting (graph_terminating succeeded) w tt);
    close = λ w. unless_recovering w _ (
        Whenever-bind (Follows w) (Follows w) (persist_and_update P range u graph_completed w) _
          (persist_and_update-Follows u enacting graph_completed w tt)
          (λ v a. send-Follows deactivate_self w v a));
  }
    where
      unless_recovering :
          (w : World (Host J)) (m : Outcome (World (Host J)))
          → Whenever (Follows w) m
          → Whenever (Follows w) (if w.host.mixin.recovering then done w else m)
      unless_recovering w m h = elim (Bool-cases w.host.mixin.recovering) [
        | inl e ↦ simp e (Follows-IsBlind.stays w w.graph refl)
        | inr e ↦ simp e h
      ]

  -- An update has the effect of its event, and then of the events that it journals in turn.
  pub update-Enacts : (fuel : ℕ) → IsEnacting (update P range fuel)
  unfolding update
  update-Enacts zero e b w = tt
  update-Enacts (suc fuel) e b w =
      update_with_event-Enacts Follows Follows-IsBlind range
        (graph_listener P range (update P range fuel))
        (graph_listener-Obeys (update P range fuel) (update-Enacts fuel)) e b w

  pub apply_event-Follows :
      (fuel : ℕ) (e : Event) (w : World (Host J))
      → Continues e
      → Whenever (Follows w) (persist_and_update P range (update P range fuel) e w)
  apply_event-Follows fuel = persist_and_update-Follows (update P range fuel) (update-Enacts fuel)
