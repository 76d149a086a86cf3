-- ===== src/Graph/Validate/Acceptance.antt =====
-- What ValidateCommand (graph/graph.go) promises of the commands that it accepts.
use completer.Prelude.{
  ℕ, suc, ◌≤◌, ◌<◌, ◌≡◌, refl, List, [], ◌∷◌, ◌++◌, none, some, true, false, All, All-append,
  length, length-append, ap, ◌∙◌, arith, done, Option-cases, inl, inr,
}
use completer.Model.Event.{StageAdded}
use completer.Model.Command.{AddStage, add_stage}
use completer.Graph.Stage.{
  CompletionStage, CompletionGraph, get_stage, modify_stage, put_stage, add_child, next_stage_id,
  Strategy,
}
use completer.Graph.Strategy.{get_strategy_from_operation, invalid_dependency_count}
use completer.Graph.Engine
use completer.Graph.Engine.{validate_stages, add_children, new_stage}
use completer.Graph.Validate.{validate_command, max_stages, can_modify_graph}

-- The keys of the map are below its size: NextStageID is free.
abbrev pub IsNumbered : List CompletionStage → Type 0
IsNumbered ss = All (λ s. s.id < length ss) ss

-- A key that no stage has is not found.
get_stage_above :
    (n : ℕ) (ss : List CompletionStage) → All (λ s. s.id < n) ss → get_stage ss n ≡ none
unfolding get_stage
get_stage_above n [] h = refl
get_stage_above n (s ∷ ss) h = ground (arith, get_stage_above n ss h.1)

pub get_stage-next_stage_id :
    (g : CompletionGraph) → IsNumbered g.stages → get_stage g.stages (next_stage_id g) ≡ none
get_stage-next_stage_id g h = get_stage_above (next_stage_id g) g.stages h

-- The event that receiveCommand makes of a request to add a stage.
abbrev pub stage_of : CompletionGraph → AddStage → StageAdded
stage_of g m = record {
  stage_id = next_stage_id g;
  op = m.operation;
  closure = m.closure;
  dependencies = m.deps;
}

-- What an accepted request to add a stage satisfies.
pub record Accepted (g : CompletionGraph) (m : AddStage) : Type 0 where
  pub strategy : Strategy
  pub known : get_strategy_from_operation m.operation ≡ some strategy
  pub count : invalid_dependency_count strategy (length m.deps) ≡ false
  pub found : validate_stages g.stages m.deps ≡ true
  pub room : length g.stages < max_stages
  pub modifiable : can_modify_graph g.state ≡ true

pub validate_command-Accepted :
    (g : CompletionGraph) (m : AddStage) → validate_command g (add_stage m) ≡ none → Accepted g m
unfolding validate_command
validate_command-Accepted g m h = elim (Option-cases (get_strategy_from_operation m.operation)) [
  | inl e ↦ ground (arith, e, h)
  | inr (s, e) ↦ record {
    strategy = s;
    known = e;
    count = ground (arith, e, h);
    found = ground (arith, e, h);
    room = ground (arith, e, h);
    modifiable = ground (arith, e, h);
  }
]

-- Writes through pointers keep the keys.
pub modify_stage-below :
    (f : CompletionStage → CompletionStage) (n i : ℕ) (ss : List CompletionStage)
    → ((s : CompletionStage) → (f s).id ≡ s.id)
    → All (λ s. s.id < n) ss
    → All (λ s. s.id < n) (modify_stage f i ss) × (length (modify_stage f i ss) ≡ length ss)
unfolding modify_stage
modify_stage-below f n i [] h a = (tt, refl)
modify_stage-below f n i (s ∷ ss) h a = (
  ground (arith, h s, (modify_stage-below f n i ss h a.1).0),
  ground (arith, (modify_stage-below f n i ss h a.1).1),
)

add_child-id : (c : ℕ) (s : CompletionStage) → (add_child c s).id ≡ s.id
unfolding add_child
add_child-id c s = refl

add_children-below :
    (c n : ℕ) (ds : List ℕ) (ss : List CompletionStage)
    → All (λ s. s.id < n) ss
    → All (λ s. s.id < n) (add_children c ds ss) × (length (add_children c ds ss) ≡ length ss)
unfolding add_children
add_children-below c n [] ss a = (a, refl)
add_children-below c n (d ∷ ds) ss a =
    let step = modify_stage-below (add_child c) n d ss (add_child-id c) a in
    let rest = add_children-below c n ds (modify_stage (add_child c) d ss) step.0 in
    (rest.0, rest.1 ∙ step.1)

-- A stage with a new key is put behind the others.
pub put_stage-append :
    (t : CompletionStage) (ss : List CompletionStage)
    → All (λ s. s.id < t.id) ss
    → put_stage t ss ≡ ss ++ t ∷ []
unfolding put_stage
put_stage-append t [] a = refl
put_stage-append t (s ∷ ss) a = ground (arith, put_stage-append t ss a.1)

pub below-suc :
    (n : ℕ) (ss : List CompletionStage) → All (λ s. s.id < n) ss → All (λ s. s.id < suc n) ss
below-suc n [] a = tt
below-suc n (s ∷ ss) a = (omega arith, below-suc n ss a.1)

add_stage-done :
    (g : CompletionGraph) (m : AddStage)
    → IsNumbered g.stages
    → (a : Accepted g m)
    → Engine.add_stage (stage_of g m) g.stages
      ≡ done (
          put_stage
            (new_stage (stage_of g m) a.strategy)
            (add_children (next_stage_id g) m.deps g.stages))
unfolding Engine.add_stage
add_stage-done g m n a = ground (arith, a.known, a.count, a.found, get_stage-next_stage_id g n)

-- In a graph whose keys are below its size, a request to add a stage that ValidateCommand accepts is
-- applied without a panic, under the ID that NextStageID gives: the graph may be modified, the new
-- map holds the old stages, with new children at most, and behind them the new one, it has at most
-- `max_stages` stages, and its keys are below its size again.
pub add_stage-accepted :
    (g : CompletionGraph) (m : AddStage)
    → IsNumbered g.stages
    → validate_command g (add_stage m) ≡ none
    → (s : CompletionStage) × (old : List CompletionStage) × (can_modify_graph g.state ≡ true)
      × (Engine.add_stage (stage_of g m) g.stages ≡ done (old ++ s ∷ []))
      × (old ≡ add_children (next_stage_id g) m.deps g.stages)
      × (s.id ≡ length g.stages)
      × (s.result ≡ none)
      × (s.operation ≡ m.operation)
      × (length (old ++ s ∷ []) ≡ suc (length g.stages))
      × (length (old ++ s ∷ []) ≤ max_stages)
      × IsNumbered (old ++ s ∷ [])
unfolding new_stage
add_stage-accepted g m n h =
    let a = validate_command-Accepted g m h in
    let s = new_stage (stage_of g m) a.strategy in
    let old = add_children (next_stage_id g) m.deps g.stages in
    let below = add_children-below (next_stage_id g) (length g.stages) m.deps g.stages n in
    let size : length (old ++ s ∷ []) ≡ suc (length g.stages) =
      omega (arith, length-append old (s ∷ []), below.1) in
    (
      s,
      old,
      a.modifiable,
      add_stage-done g m n a ∙ ap done (put_stage-append s old below.0),
      refl,
      refl,
      refl,
      refl,
      size,
      omega (arith, size, a.room),
      rw size (
          All-append (λ t. t.id < suc (length g.stages)) old (s ∷ [])
            (below-suc (length g.stages) old below.0) (omega arith, tt)),
    )
