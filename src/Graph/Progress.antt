-- ===== src/Graph/Progress.antt =====
-- How a graph may change while its stages stay the same ones: a result is written once, a stage
-- once triggered stays triggered, and the lifecycle goes forward. The measure counts what is left.
pub mod Requests
pub mod Listener
pub mod Loops
pub mod Handlers
pub mod Results
use completer.Prelude.{
  ℕ, zero, suc, ◌+◌, ◌≤◌, ◌<◌, ◌≡◌, refl, sym, subst, ◌∙◌, ◌⊎◌, inl, inr, List, [], ◌∷◌, Option,
  none, some, Bool, true, false, ◌==◌, if◌then◌else◌, ==→eq, arith, map,
}
use completer.Model.Datum.{CompletionResult}
use completer.Graph.Stage.{
  CompletionStage, CompletionGraph, State, state_initial, state_committed, state_terminating,
  state_completed, get_stage, modify_stage, complete, mark_triggered, stage_ids,
}
use completer.Graph.Engine.{compose_with}

abbrev one_unless : Bool → ℕ
one_unless true = 0
one_unless false = 1

abbrev open_result : Option CompletionResult → ℕ
open_result none = 1
open_result (some r) = 0

-- What is left to happen to a stage: to be triggered, and to be resolved.
abbrev pub stage_work : CompletionStage → ℕ
stage_work s = one_unless s.triggered + open_result s.result

abbrev pub stages_work : List CompletionStage → ℕ
stages_work [] = 0
stages_work (s ∷ ss) = stage_work s + stages_work ss

-- How far the lifecycle is from its end.
abbrev pub rank : State → ℕ
rank state_initial = 3
rank state_committed = 2
rank state_terminating = 1
rank state_completed = 0

abbrev pub work : CompletionGraph → ℕ
work g = stages_work g.stages + rank g.state

pub record StageAdvances (s t : CompletionStage) : Type 0 where
  pub same_id : t.id ≡ s.id
  pub same_operation : t.operation ≡ s.operation
  pub same_strategy : t.strategy ≡ s.strategy
  pub same_dependencies : t.dependencies ≡ s.dependencies
  pub same_phase : t.exec_phase ≡ s.exec_phase
  pub write_once : (s.result ≡ none) ⊎ (t.result ≡ s.result)
  pub stays_triggered : s.triggered ≡ true → t.triggered ≡ true

abbrev pub StagesAdvance : List CompletionStage → List CompletionStage → Type 0
StagesAdvance [] [] = Unit
StagesAdvance (s ∷ ss) (t ∷ ts) = StageAdvances s t × StagesAdvance ss ts
StagesAdvance _ _ = ⊥

pub record GraphAdvances (g h : CompletionGraph) : Type 0 where
  pub stages : StagesAdvance g.stages h.stages
  pub state : rank h.state ≤ rank g.state
  pub same_function : h.function_id ≡ g.function_id

pub StageAdvances-refl : (s : CompletionStage) → StageAdvances s s
StageAdvances-refl s = record {
  same_id = refl;
  same_operation = refl;
  same_strategy = refl;
  same_dependencies = refl;
  same_phase = refl;
  write_once = inr refl;
  stays_triggered = λ h. h;
}

pub StageAdvances-trans :
    {s t u : CompletionStage} → StageAdvances s t → StageAdvances t u → StageAdvances s u
StageAdvances-trans {s} {t} {u} a b = record {
  same_id = b.same_id ∙ a.same_id;
  same_operation = b.same_operation ∙ a.same_operation;
  same_strategy = b.same_strategy ∙ a.same_strategy;
  same_dependencies = b.same_dependencies ∙ a.same_dependencies;
  same_phase = b.same_phase ∙ a.same_phase;
  write_once = ground (arith, a.write_once, b.write_once);
  stays_triggered = λ h. b.stays_triggered (a.stays_triggered h);
}

pub StagesAdvance-refl : (ss : List CompletionStage) → StagesAdvance ss ss
StagesAdvance-refl [] = tt
StagesAdvance-refl (s ∷ ss) = (StageAdvances-refl s, StagesAdvance-refl ss)

pub StagesAdvance-trans :
    (ss ts us : List CompletionStage)
    → StagesAdvance ss ts
    → StagesAdvance ts us
    → StagesAdvance ss us
StagesAdvance-trans [] [] [] a b = tt
StagesAdvance-trans [] [] (u ∷ us) a b = b
StagesAdvance-trans [] (t ∷ ts) us a b = absurd a
StagesAdvance-trans (s ∷ ss) [] us a b = absurd a
StagesAdvance-trans (s ∷ ss) (t ∷ ts) [] a b = b
StagesAdvance-trans (s ∷ ss) (t ∷ ts) (u ∷ us) a b =
    (StageAdvances-trans a.0 b.0, StagesAdvance-trans ss ts us a.1 b.1)

pub GraphAdvances-refl : (g : CompletionGraph) → GraphAdvances g g
GraphAdvances-refl g = record {
  stages = StagesAdvance-refl g.stages;
  state = omega arith;
  same_function = refl;
}

pub GraphAdvances-trans :
    {g h k : CompletionGraph} → GraphAdvances g h → GraphAdvances h k → GraphAdvances g k
GraphAdvances-trans {g} {h} {k} a b = record {
  stages = StagesAdvance-trans g.stages h.stages k.stages a.stages b.stages;
  state = omega (arith, a.state, b.state);
  same_function = b.same_function ∙ a.same_function;
}

stage_work_mono : (s t : CompletionStage) → StageAdvances s t → stage_work t ≤ stage_work s
stage_work_mono s t a = ground (arith, a.write_once, a.stays_triggered)

pub stages_work_mono :
    (ss ts : List CompletionStage) → StagesAdvance ss ts → stages_work ts ≤ stages_work ss
stages_work_mono [] [] a = omega arith
stages_work_mono [] (t ∷ ts) a = absurd a
stages_work_mono (s ∷ ss) [] a = absurd a
stages_work_mono (s ∷ ss) (t ∷ ts) a =
    omega (arith, stage_work_mono s t a.0, stages_work_mono ss ts a.1)

pub work_mono : {g h : CompletionGraph} → GraphAdvances g h → work h ≤ work g
work_mono {g} {h} a = omega (arith, stages_work_mono g.stages h.stages a.stages, a.state)

-- A write through a pointer advances the stages if it advances the stage.
pub modify_stage-StagesAdvance :
    (f : CompletionStage → CompletionStage) (i : ℕ) (ss : List CompletionStage)
    → ((s : CompletionStage) → StageAdvances s (f s))
    → StagesAdvance ss (modify_stage f i ss)
unfolding modify_stage
modify_stage-StagesAdvance f i [] h = tt
modify_stage-StagesAdvance f i (s ∷ ss) h =
    ground
      (arith, h s, StagesAdvance-refl ss, StageAdvances-refl s, modify_stage-StagesAdvance f i ss h)

pub complete-StageAdvances :
    (r : CompletionResult) (s : CompletionStage) → StageAdvances s (complete r s)
unfolding complete
complete-StageAdvances r s = ground arith

pub mark_triggered-StageAdvances : (s : CompletionStage) → StageAdvances s (mark_triggered s)
mark_triggered-StageAdvances s = ground arith

pub compose_with-StageAdvances :
    (o : Option ℕ) (s : CompletionStage) → StageAdvances s (compose_with o s)
compose_with-StageAdvances o s = ground arith

-- The stage that a key finds has that key.
pub get_stage-id :
    (ss : List CompletionStage) (i : ℕ) (s : CompletionStage) → get_stage ss i ≡ some s → s.id ≡ i
unfolding get_stage
get_stage-id [] i s h = cc
get_stage-id (t ∷ ss) i s h = ground (arith, get_stage-id ss i s)

pub get_stage_self :
    (ss : List CompletionStage) (i : ℕ) (s : CompletionStage)
    → get_stage ss i ≡ some s
    → get_stage ss s.id ≡ some s
get_stage_self ss i s h = subst (λ j. get_stage ss j ≡ some s) (sym (get_stage-id ss i s h)) h

pub get_stage-modify_stage_self :
    (f : CompletionStage → CompletionStage) (ss : List CompletionStage) (i : ℕ)
    (s : CompletionStage)
    → get_stage ss i ≡ some s
    → (f s).id ≡ s.id
    → get_stage (modify_stage f i ss) i ≡ some (f s)
unfolding get_stage modify_stage
get_stage-modify_stage_self f [] i s h e = cc
get_stage-modify_stage_self f (t ∷ ss) i s h e =
    ground (arith, get_stage-modify_stage_self f ss i s)

-- The work that a write through a pointer leaves.
pub stages_work-modify_stage :
    (f : CompletionStage → CompletionStage) (ss : List CompletionStage) (i : ℕ)
    (s : CompletionStage)
    → get_stage ss i ≡ some s
    → stages_work (modify_stage f i ss) + stage_work s ≡ stages_work ss + stage_work (f s)
unfolding get_stage modify_stage
stages_work-modify_stage f [] i s h = cc
stages_work-modify_stage f (t ∷ ss) i s h = ground (arith, stages_work-modify_stage f ss i s)

-- A stage's work is part of the graph's.
pub stage_work-le :
    (ss : List CompletionStage) (i : ℕ) (s : CompletionStage)
    → get_stage ss i ≡ some s
    → stage_work s ≤ stages_work ss
unfolding get_stage
stage_work-le [] i s h = cc
stage_work-le (t ∷ ss) i s h = ground (arith, stage_work-le ss i s)
