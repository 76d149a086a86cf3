-- ===== src/Actor/Updates/Keys.antt =====
-- The keys of a flow's stages, as its actor applies events (graph/graph.go, actor/graph.go).
use completer.Prelude.{
  ℕ, suc, ◌≤◌, ◌<◌, ◌≡◌, refl, ap, ◌∙◌, List, [], ◌∷◌, ◌++◌, none, Bool, false, arith, Ensures,
  Ensures-mono, length, All,
}
use completer.Model.Event.{Event, stage_added}
use completer.Model.Command.{AddStage, add_stage}
use completer.Graph.Stage.{CompletionStage}
use completer.Graph.Engine.{World, is_termination_hook}
use completer.Graph.Validate.{validate_command, max_stages}
use completer.Graph.Validate.Acceptance.{IsNumbered, stage_of, add_stage-accepted}
use completer.Graph.Progress.{StagesAdvance}
use completer.Persistence.Provider.{ProviderState}
use completer.Actor.State.{Host}
use completer.Actor.Updates.{update}
use completer.Actor.Updates.Growth.{Grows}
use completer.Actor.Updates.Total.{update-stage_added}

pub StagesAdvance-length :
    (ss ts : List CompletionStage) → StagesAdvance ss ts → length ts ≡ length ss
StagesAdvance-length [] [] a = refl
StagesAdvance-length [] (t ∷ ts) a = absurd a
StagesAdvance-length (s ∷ ss) [] a = absurd a
StagesAdvance-length (s ∷ ss) (t ∷ ts) a = ap suc (StagesAdvance-length ss ts a.1)

StagesAdvance-below :
    (n : ℕ) (ss ts : List CompletionStage)
    → StagesAdvance ss ts
    → All (λ s. s.id < n) ss
    → All (λ s. s.id < n) ts
StagesAdvance-below n [] [] a h = tt
StagesAdvance-below n [] (t ∷ ts) a h = absurd a
StagesAdvance-below n (s ∷ ss) [] a h = absurd a
StagesAdvance-below n (s ∷ ss) (t ∷ ts) a h =
    (omega (arith, a.0.same_id, h.0), StagesAdvance-below n ss ts a.1 h.1)

pub StagesAdvance-IsNumbered :
    (ss ts : List CompletionStage) → StagesAdvance ss ts → IsNumbered ss → IsNumbered ts
StagesAdvance-IsNumbered ss ts a h =
    rw (StagesAdvance-length ss ts a) (StagesAdvance-below (length ss) ss ts a h)

module _ {J : Type 0} (P : ProviderState Event J) (range : ℕ → List ℕ → List ℕ) where
  -- A request to add a stage other than a termination hook that ValidateCommand accepts, in a graph
  -- whose keys are below its size, is applied in full on 2005 units of fuel, whatever the size of
  -- the graph: then it has one stage more, at most `max_stages` in all, and its keys are below its
  -- size again; unless there was a panic in what the new stage triggers.
  pub update-stage_of :
      (may_trigger : Bool) (w : World (Host J)) (m : AddStage)
      → is_termination_hook m.operation ≡ false
      → IsNumbered w.graph.stages
      → validate_command w.graph (add_stage m) ≡ none
      → Ensures
          (λ v.
            IsNumbered v.graph.stages
            × (length v.graph.stages ≡ suc (length w.graph.stages))
            × (length v.graph.stages ≤ max_stages)
            × Grows P w.host v.host)
          (update P range 2005 (stage_added (stage_of w.graph m)) may_trigger w)
  update-stage_of b w m plain n ok =
      let (s, old, modifiable, added, same, key, fresh, op, size, most, keys) =
        add_stage-accepted w.graph m n ok in
      Ensures-mono _ _ (update P range 2005 (stage_added (stage_of w.graph m)) b w)
        (update-stage_added P range 2005 (stage_of w.graph m) b w (old ++ s ∷ []) plain added
          (omega (arith, most)))
        (λ v a.
          let same_size = StagesAdvance-length (old ++ s ∷ []) v.graph.stages a.graph.stages in
          (
            StagesAdvance-IsNumbered (old ++ s ∷ []) v.graph.stages a.graph.stages keys,
            same_size ∙ size,
            omega (arith, same_size, most),
            a.host,
          ))
