-- ===== src/Actor/Updates/Composition.antt =====
-- Flows without composed stages stay so, but for the event that composes stages (graph/graph.go).
use completer.Prelude.{
  ℕ, ◌≡◌, refl, subst, Ensures, inl, inr, List, [], ◌∷◌, none, some, ◌==◌, All, arith, Bool-cases,
  Option-cases,
}
use completer.Model.Datum.{CompletionResult}
use completer.Model.Event.{Event, StageAdded, stage_composed}
use completer.Graph.Stage.{
  CompletionStage, CompletionGraph, get_stage, modify_stage, put_stage, complete, add_child,
}
use completer.Graph.Strategy.{get_strategy_from_operation}
use completer.Graph.Engine.{
  handle_add_termination_hook, add_stage, add_children, new_stage, new_termination_hook, depend_on,
}

-- A stage that was composed refers to its outer stage.
abbrev pub IsUncomposedStage : CompletionStage → Type 0
IsUncomposedStage s = s.compose_reference ≡ none

abbrev pub IsUncomposed : CompletionGraph → Type 0
IsUncomposed g = All IsUncomposedStage g.stages

abbrev pub ComposesNothing : Event → Type 0
ComposesNothing (stage_composed outer inner) = ⊥
ComposesNothing _ = Unit

pub All-modify_stage :
    (P : CompletionStage → Type 0) (f : CompletionStage → CompletionStage) (i : ℕ)
    (ss : List CompletionStage)
    → ((s : CompletionStage) → P s → P (f s))
    → All P ss
    → All P (modify_stage f i ss)
unfolding modify_stage
All-modify_stage P f i [] k h = tt
All-modify_stage P f i (s ∷ ss) k h = elim (Bool-cases (s.id == i)) [
  | inl e ↦ rw e (k s h.0, h.1)
  | inr e ↦ rw e (h.0, All-modify_stage P f i ss k h.1)
]

All-put_stage :
    (P : CompletionStage → Type 0) (t : CompletionStage) (ss : List CompletionStage)
    → P t
    → All P ss
    → All P (put_stage t ss)
unfolding put_stage
All-put_stage P t [] h k = (h, tt)
All-put_stage P t (s ∷ ss) h k = elim (Bool-cases (s.id == t.id)) [
  | inl e ↦ rw e (h, k.1)
  | inr e ↦ rw e (k.0, All-put_stage P t ss h k.1)
]

pub All-get_stage :
    (P : CompletionStage → Type 0) (ss : List CompletionStage) (i : ℕ) (s : CompletionStage)
    → All P ss
    → get_stage ss i ≡ some s
    → P s
unfolding get_stage
All-get_stage P [] i s h e = absurd (cc)
All-get_stage P (t ∷ ss) i s h e = elim (Bool-cases (t.id == i)) [
  | inl q ↦ subst P (some-injective (rw q at e)) h.0
  | inr q ↦ All-get_stage P ss i s h.1 (rw q at e)
]
  where
    some-injective : {a b : CompletionStage} → some a ≡ some b → a ≡ b
    some-injective e = cc

add_children-IsUncomposed :
    (c : ℕ) (ds : List ℕ) (ss : List CompletionStage)
    → All IsUncomposedStage ss
    → All IsUncomposedStage (add_children c ds ss)
unfolding add_children add_child
add_children-IsUncomposed c [] ss h = h
add_children-IsUncomposed c (d ∷ ds) ss h =
    add_children-IsUncomposed c ds (modify_stage (add_child c) d ss)
      (All-modify_stage IsUncomposedStage (add_child c) d ss (λ s k. k) h)

pub complete-IsUncomposed :
    (r : CompletionResult) (s : CompletionStage)
    → IsUncomposedStage s
    → IsUncomposedStage (complete r s)
unfolding complete
complete-IsUncomposed r s h = ground (arith, h)

pub add_stage-IsUncomposed :
    (e : StageAdded) (ss : List CompletionStage)
    → All IsUncomposedStage ss
    → Ensures (All IsUncomposedStage) (add_stage e ss)
unfolding add_stage new_stage
add_stage-IsUncomposed e ss h = elim (Option-cases (get_strategy_from_operation e.op)) [
  | inl n ↦ rw (n, add_stage) tt
  | inr (strategy, y) ↦
      rw (y, add_stage)
        (ground (
          arith,
          All-put_stage IsUncomposedStage (new_stage e strategy)
              (add_children e.stage_id e.dependencies ss) refl
              (add_children-IsUncomposed e.stage_id e.dependencies ss h),
        ))
]

pub add_termination_hook-IsUncomposed :
    (e : StageAdded) (g : CompletionGraph)
    → IsUncomposed g
    → Ensures IsUncomposed (handle_add_termination_hook e g)
unfolding handle_add_termination_hook new_termination_hook get_strategy_from_operation
add_termination_hook-IsUncomposed e g h = elim (Option-cases g.termination_chain_head) [
  | inl n ↦ rw (n, handle_add_termination_hook) (All-put_stage IsUncomposedStage _ g.stages refl h)
  | inr (old, n) ↦
      rw (n, handle_add_termination_hook)
        (All-put_stage IsUncomposedStage _ (modify_stage (depend_on e.stage_id) old g.stages) refl
          (All-modify_stage IsUncomposedStage (depend_on e.stage_id) old g.stages (λ s k. k) h))
]
