-- ===== src/Actor/Commands/Restart.antt =====
-- A flow outlives its actor: what an actor that is started again has replayed (persistence/plugin.go,
-- persistence/in_memory_provider.go, actor/graph.go).
use completer.Prelude.{
  ℕ, suc, ◌≡◌, refl, sym, ap, ◌∙◌, String, List, [], ◌∷◌, ◌++◌, Option, none, false, length, arith,
  Outcome, done, panicked, out_of_fuel, ◌>>=◌, for_each, All, subst, Ensures, done-injective, Panic,
}
use completer.Model.Event.{Event}
use completer.Model.Command.{Command}
use completer.Graph.Stage.{CompletionGraph}
use completer.Graph.Replay.{replay_all}
use completer.Graph.Replay.Forgetting.{forget_flow}
use completer.Persistence.Provider.{
  ProviderState, Store, enumerate, load_or_init, new_in_memory_provider, in_memory_get_events,
  in_memory_get_snapshot,
}
use completer.Persistence.Provider.Journal.{persisted_events, read_all}
use completer.Persistence.Mixin.{Mixin, persist_receive, init, replay_snapshot, raise}
use completer.Persistence.Provider.Sql.Restart.{starting, recovered}
use completer.Actor.State.{GraphActor}
use completer.Actor.Updates.Growth.{persist_all}
use completer.Actor.Updates.Composition.{ComposesNothing}
use completer.Actor.Commands.{set_actor_mixin, start, started, replay_complete}
use completer.Actor.Commands.Invariant.{IsSoundGraph}
use completer.Actor.Commands.Recovering.{same_flow-IsSoundGraph, replay_complete-IsSoundGraph}
use completer.Actor.Commands.Replaying.{
  IsUncomposedFlow, replay_journal, AreReplayed, replay_journal-AreReplayed,
}
use completer.Actor.Commands.Sourcing.{Sourced, receive_commands, receive_commands-Kept}

module _ {J : Type 0} (P : ProviderState Event J) (range : ℕ → List ℕ → List ℕ) (fuel : ℕ) where
  -- The actor whose replay is over has the flow that its journal stands for.
  pub record Restarted (name : String) (es : List Event) (a : GraphActor J)
      (o : Option CompletionGraph) (m : Outcome (GraphActor J)) : Type 0 where
    pub actor : GraphActor J
    pub goes_on : m ≡ replay_complete P range (suc fuel) actor
    pub same_flow : forget_flow actor.graph ≡ forget_flow o
    pub mixin : actor.host.mixin ≡ recovered name (length es) a.host.mixin

  abbrev awake : String → GraphActor J → GraphActor J
  awake name a =
      set_actor_mixin P range (suc fuel) (starting name a.host.mixin) (started P range (suc fuel) a)

  pub start-Restarted :
      (now : ℕ) (name : String) (es : List Event) (a : GraphActor J) (o : Option CompletionGraph)
      → All ComposesNothing es
      → a.graph ≡ none
      → P.get_snapshot name a.host.mixin.journal ≡ none
      → P.get_events name 0 a.host.mixin.journal ≡ (enumerate 0 es, none)
      → replay_all es none ≡ done (forget_flow o)
      → Restarted name es a o (start P range (suc fuel) now name a)
  unfolding start init started raise
  start-Restarted now name es a o plain new no_snapshot reads stands =
      rw (no_snapshot, init, replay_snapshot)
        (rw reads (
          by_replay (replay_journal P range fuel now (enumerate 0 es) (awake name a)) (
            replay_journal-AreReplayed P range fuel now 0 es (awake name a) plain refl refl
              (subst IsUncomposedFlow (sym new) tt))))
    where
      standing : replay_all es (forget_flow a.graph) ≡ done (forget_flow o)
      standing = ap (λ g. replay_all es (forget_flow g)) new ∙ stands

      unequal : {p : Panic} {f : Option CompletionGraph} → Outcome.panicked p ≡ done f → ⊥
      unequal e = cc

      by_replay :
          (m : Outcome (GraphActor J))
          → AreReplayed P range fuel 0 es (awake name a) m
          → Restarted name es a o (
              m >>= λ c. done c >>= λ d.
              replay_complete P range
                (suc fuel)
                (set_actor_mixin P range (suc fuel) (record d.host.mixin { recovering = false }) d))
      by_replay (done c) (q, x) = record {
        actor = set_actor_mixin P range (suc fuel) (record c.host.mixin { recovering = false }) c;
        goes_on = refl;
        same_flow = done-injective (sym q ∙ standing);
        mixin =
            ap (λ (y : Mixin J). record y { recovering = false }) x
            ∙ ap (λ n. recovered name n a.host.mixin) (omega arith);
      }
      by_replay (panicked p) q = absurd (unequal (sym q ∙ standing))
      by_replay out_of_fuel q = absurd q

-- A start of an actor whose flow was sound ends, with 2005 units of fuel.
pub Restarted-ends :
    {J : Type 0} (P : ProviderState Event J) (range : ℕ → List ℕ → List ℕ) (name : String)
    (es : List Event) (a : GraphActor J) (o : Option CompletionGraph) (m : Outcome (GraphActor J))
    → Restarted P range 2004 name es a o m
    → IsSoundGraph o
    → Ensures (λ d. IsSoundGraph d.graph) m
Restarted-ends P range name es a o m r sound =
    subst (Ensures (λ d. IsSoundGraph d.graph)) (sym r.goes_on) (
      replay_complete-IsSoundGraph P range r.actor
        (same_flow-IsSoundGraph r.actor.graph o r.same_flow sound))

pub persist_all-for_each :
    {J : Type 0} (P : ProviderState Event J) (es : List Event) (x : Mixin J)
    → persist_all P es x ≡ for_each (persist_receive P) es x
unfolding persist_all for_each
persist_all-for_each P [] x = refl
persist_all-for_each {J = J} P (e ∷ es) x =
    first (persist_receive P e x) (persist_all-for_each P es)
  where
    first :
        (m : Outcome (Mixin J))
        → ((y : Mixin J) → persist_all P es y ≡ for_each (persist_receive P) es y)
        → (m >>= persist_all P es) ≡ (m >>= for_each (persist_receive P) es)
    first (done y) rest = rest y
    first (panicked p) rest = refl
    first out_of_fuel rest = refl

-- The events that a store keeps under a name.
abbrev pub stored_events : String → Store Event → List Event
stored_events name store = (load_or_init name store).events

-- A flow's actor that has no graph and no stored events under its name receives any commands without
-- a panic. Any new actor of that name over the store that it left, started at any time and without a
-- snapshot, comes to its ReplayComplete with a flow that differs from the one that was lost in the
-- marks of triggered stages at most, with the same stored events, an event index of their number and
-- its recovery over; and the start then ends on 2005 units of fuel, unless there was a panic, with a
-- graph, if any, whose keys are below its size, which is at most `max_stages`; if none of the stored
-- events composes stages.
pub start-receive_commands :
    (interval now : ℕ) (range : ℕ → List ℕ → List ℕ) (flow_id : String)
    (cs : List (ℕ × ℕ × Command)) (a b c : GraphActor (Store Event))
    → a.graph ≡ none
    → stored_events a.host.mixin.name a.host.mixin.journal ≡ []
    → receive_commands (new_in_memory_provider interval) range flow_id cs a ≡ done b
    → in_memory_get_snapshot a.host.mixin.name b.host.mixin.journal ≡ none
    → All ComposesNothing (stored_events a.host.mixin.name b.host.mixin.journal)
    → c.graph ≡ none
    → c.host.mixin.journal ≡ b.host.mixin.journal
    → Restarted
        (new_in_memory_provider interval)
        range
        2004
        a.host.mixin.name
        (stored_events a.host.mixin.name b.host.mixin.journal)
        c
        b.graph
        (start (new_in_memory_provider interval) range 2005 now a.host.mixin.name c)
      × Ensures
          (λ d. IsSoundGraph d.graph)
          (start (new_in_memory_provider interval) range 2005 now a.host.mixin.name c)
unfolding new_in_memory_provider
start-receive_commands interval now range flow_id cs a b c new empty returned no_snapshot plain
      none_yet same_store =
    let P : ProviderState Event (Store Event) = new_in_memory_provider interval in
    let name = a.host.mixin.name in
    let (sound, h) =
      subst (Ensures (λ d. IsSoundGraph d.graph × Sourced P a d)) returned
        (receive_commands-Kept P range flow_id cs a (subst IsSoundGraph (sym new) tt)) in
    let (y, e, same_name, index, events, others) =
      persisted_events interval h.events a.host.mixin in
    let kept : y ≡ b.host.mixin =
      done-injective (sym e ∙ sym (persist_all-for_each P h.events a.host.mixin) ∙ h.journaled) in
    let stored : stored_events name b.host.mixin.journal ≡ h.events =
      ap (λ x. stored_events name x.journal) (sym kept)
      ∙ events
      ∙ ap (λ es. es ++ h.events) empty in
    let restarted =
      start-Restarted P range 2004 now name (stored_events name b.host.mixin.journal) c b.graph
        plain none_yet (ap (in_memory_get_snapshot name) same_store ∙ no_snapshot)
        (ap (λ s. (in_memory_get_events name 0 s, none)) same_store
          ∙ ap (λ es. (es, none)) (read_all name b.host.mixin.journal _ refl))
        (ap (λ es. replay_all es none) stored
          ∙ ap (λ o. replay_all h.events (forget_flow o)) (sym new)
          ∙ h.replayed) in
    (
      restarted,
      Restarted-ends P range name (stored_events name b.host.mixin.journal) c b.graph _ restarted
          sound,
    )
