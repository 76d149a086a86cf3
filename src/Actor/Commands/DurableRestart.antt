-- ===== src/Actor/Commands/DurableRestart.antt =====
-- A flow outlives its process: what an actor that is started again over a SQL database has replayed
-- (persistence/plugin.go, persistence/sql_provider.go, actor/graph.go).
use completer.Prelude.{
  ℕ, suc, ◌≡◌, refl, sym, ap, ◌∙◌, inl, inr, String, List, [], ◌∷◌, none, some, arith, done, All,
  subst, Ensures,
}
use completer.Model.Event.{Event}
use completer.Model.Command.{Command}
use completer.Graph.Replay.{replay_all}
use completer.Graph.Replay.Forgetting.{forget_flow}
use completer.Persistence.Provider.{ProviderState, enumerate}
use completer.Persistence.Provider.Sql.{
  read_rows, EventRow, JournalDb, JournalDbLaws, Codec, new_sql_provider, get_events, get_snapshot,
  wanted, query_ended, complete, cut_short, scan_failed,
}
use completer.Persistence.Provider.Sql.Journal.{Holds, get_events-persisted}
use completer.Actor.State.{GraphActor}
use completer.Actor.Updates.Composition.{ComposesNothing}
use completer.Actor.Commands.{start}
use completer.Actor.Commands.Invariant.{IsSoundGraph}
use completer.Actor.Commands.Sourcing.{Sourced, receive_commands, receive_commands-Kept}
use completer.Actor.Commands.Restart.{
  Restarted, Restarted-ends, start-Restarted, persist_all-for_each,
}

enumerate-injective :
    {M : Type 0} (i : ℕ) (xs ys : List M) → enumerate i xs ≡ enumerate i ys → xs ≡ ys
unfolding enumerate
enumerate-injective i [] [] e = refl
enumerate-injective i [] (y ∷ ys) e = absurd (cc)
enumerate-injective i (x ∷ xs) [] e = absurd (cc)
enumerate-injective i (x ∷ xs) (y ∷ ys) e = ground (arith, enumerate-injective (suc i) xs ys (cc))

-- A flow's actor that has no graph, no rows in the database and an event index of 0 receives any
-- commands without a panic. Any new actor of its name over the database that it left, started at any
-- time and without a snapshot, if the events are read without a panic or an error that cuts the
-- iteration over their rows short, and none of them composes stages, comes to its
-- ReplayComplete with a flow that differs from the one that was lost in the marks of triggered stages
-- at most, with the same database, an event index of the number of the events and its recovery over;
-- and the start then ends on 2005 units of fuel, unless there was a panic, with a graph, if any,
-- whose keys are below its size, which is at most `max_stages`. The database keeps rising rows in
-- order, and protocol buffers that were written can be read.
pub start-sql_receive_commands :
    {D : Type 0} (codec : Codec Event) (db : JournalDb D) (rows : D → List EventRow)
    → JournalDbLaws db rows
    → ((m : Event) (bytes : List ℕ)
        → codec.marshal m ≡ some bytes
        → codec.extract_data (codec.message_name m) bytes ≡ some m)
    → (interval now : ℕ) (range : ℕ → List ℕ → List ℕ) (flow_id : String)
      (cs : List (ℕ × ℕ × Command)) (es : List Event) (a b c : GraphActor D)
    → a.graph ≡ none
    → a.host.mixin.event_index ≡ 0
    → wanted a.host.mixin.name 0 (rows a.host.mixin.journal) ≡ []
    → receive_commands (new_sql_provider codec db interval) range flow_id cs a ≡ done b
    → get_snapshot codec db a.host.mixin.name b.host.mixin.journal ≡ none
    → query_ended db a.host.mixin.name 0 b.host.mixin.journal ≡ some complete
    → get_events codec db a.host.mixin.name 0 b.host.mixin.journal ≡ (enumerate 0 es, none)
    → All ComposesNothing es
    → c.graph ≡ none
    → c.host.mixin.journal ≡ b.host.mixin.journal
    → Restarted
        (new_sql_provider codec db interval)
        range
        2004
        a.host.mixin.name
        es
        c
        b.graph
        (start (new_sql_provider codec db interval) range 2005 now a.host.mixin.name c)
      × Ensures
          (λ d. IsSoundGraph d.graph)
          (start (new_sql_provider codec db interval) range 2005 now a.host.mixin.name c)
unfolding new_sql_provider
start-sql_receive_commands {D = D} codec db rows laws decodes interval now range flow_id cs es a b c
      new zero_index fresh returned no_snapshot whole read plain none_yet same_store =
    let P : ProviderState Event D = new_sql_provider codec db interval in
    let name = a.host.mixin.name in
    let (sound, h) =
      subst (Ensures (λ d. IsSoundGraph d.graph × Sourced P a d)) returned
        (receive_commands-Kept P range flow_id cs a (subst IsSoundGraph (sym new) tt)) in
    let held : Holds codec db rows laws decodes 0 a.host.mixin [] = record {
      from_here = omega arith;
      rising = rw fresh tt;
      read = rw fresh (unfold read_rows in refl);
    } in
    let (same_name, index, reads) =
      get_events-persisted codec db rows laws decodes interval 0 h.events a.host.mixin b.host.mixin
        [] held (sym (persist_all-for_each P h.events a.host.mixin) ∙ h.journaled) in
    let same_events : es ≡ h.events = elim reads [
      | inl bad ↦ absurd (failed (sym whole ∙ bad.0))
      | inr (inl q) ↦
          enumerate-injective 0 es h.events
            (ap (λ x. x.0) (sym read ∙ q.1) ∙ ap (λ i. enumerate i h.events) zero_index)
      | inr (inr (inl cut)) ↦ absurd (was_cut (sym whole ∙ cut.0))
      | inr (inr (inr bad)) ↦ absurd (unscanned (sym whole ∙ bad))
    ] in
    let restarted =
      start-Restarted P range 2004 now name es c b.graph plain none_yet
        (ap (get_snapshot codec db name) same_store ∙ no_snapshot)
        (ap (get_events codec db name 0) same_store ∙ read)
        (ap (λ x. replay_all x none) same_events
          ∙ ap (λ o. replay_all h.events (forget_flow o)) (sym new)
          ∙ h.replayed) in
    (restarted, Restarted-ends P range name es c b.graph _ restarted sound)
  where
    failed : some complete ≡ none → ⊥
    failed e = cc

    was_cut : some complete ≡ some cut_short → ⊥
    was_cut e = cc

    unscanned : some complete ≡ some scan_failed → ⊥
    unscanned e = cc
