-- ===== src/Graph/Validate/Hooks.antt =====
-- Termination hooks are added under a free key (handleAddTerminationHook of graph/graph.go).
use completer.Prelude.{
  ℕ, suc, ◌<◌, ◌≡◌, refl, ◌∙◌, inl, inr, List, [], ◌∷◌, ◌++◌, arith, Ensures, length, All,
  All-append, length-append, Option-cases, ap,
}
use completer.Model.Event.{StageAdded}
use completer.Graph.Stage.{CompletionStage, CompletionGraph, modify_stage, put_stage}
use completer.Graph.Strategy.{get_strategy_from_operation}
use completer.Graph.Engine.{handle_add_termination_hook, depend_on}
use completer.Graph.Validate.Acceptance.{
  IsNumbered, modify_stage-below, put_stage-append, below-suc,
}

put_new-IsNumbered :
    (n : ℕ) (t : CompletionStage) (ss : List CompletionStage)
    → t.id ≡ n
    → length ss ≡ n
    → All (λ s. s.id < n) ss
    → IsNumbered (put_stage t ss) × (length (put_stage t ss) ≡ suc n)
put_new-IsNumbered n t ss key size below =
    let added : put_stage t ss ≡ ss ++ t ∷ [] = put_stage-append t ss (rw key below) in
    let grown : length (put_stage t ss) ≡ suc n =
      ap length added ∙ omega (arith, length-append ss (t ∷ []), size) in
    (
      rw (grown, added)
          (All-append (λ s. s.id < suc n) ss (t ∷ []) (below-suc n ss below)
            (omega (arith, key), tt)),
      grown,
    )

pub handle_add_termination_hook-IsNumbered :
    (e : StageAdded) (g : CompletionGraph)
    → e.stage_id ≡ length g.stages
    → IsNumbered g.stages
    → Ensures
        (λ k. IsNumbered k.stages × (length k.stages ≡ suc (length g.stages)))
        (handle_add_termination_hook e g)
unfolding handle_add_termination_hook get_strategy_from_operation
handle_add_termination_hook-IsNumbered e g key n = elim (Option-cases g.termination_chain_head) [
  | inl q ↦
      rw (q, handle_add_termination_hook)
        (put_new-IsNumbered (length g.stages) _ g.stages key refl n)
  | inr (old, q) ↦
      let step =
        modify_stage-below (depend_on e.stage_id) (length g.stages) old g.stages (λ s. refl) n in
      rw (q, handle_add_termination_hook)
        (put_new-IsNumbered (length g.stages) _ (modify_stage (depend_on e.stage_id) old g.stages)
          key step.1 step.0)
]
