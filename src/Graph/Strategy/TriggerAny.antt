-- ===== src/Graph/Strategy/TriggerAny.antt =====
-- What triggerAny decides (graph/stage_strategy.go), against an independent description.
use mathlib.Core.Bool.{false≢true}
use completer.Prelude.{
  ◌≡◌, refl, sym, ap, ◌∙◌, ◌⊎◌, inl, inr, List, [], ◌∷◌, ◌++◌, map, Option, none, some, Bool, true,
  false, arith, All, done, Bool-cases,
}
use completer.Model.Datum.{CompletionResult}
use completer.Graph.Strategy.{Trigger, not_triggered, trigger_any_loop, trigger_any_trigger}
use completer.Graph.Strategy.WaitForAll.{Results, Succeeded, HasFailed, fire}

abbrev pub NoSuccess : Option CompletionResult → Type 0
NoSuccess none = Unit
NoSuccess (some r) = HasFailed r

-- The decision of triggerAny, by what the dependencies came to.
pub data TriggerAny (ds : List (Option CompletionResult)) : Trigger → Type 0 where
  -- none succeeded, and there are none or one is not resolved
  waits_any :
      All NoSuccess ds
      → (ds ≡ [])
        ⊎ ((pre : List (Option CompletionResult)) × (post : List (Option CompletionResult)) × (ds
              ≡ pre ++ none ∷ post))
      → TriggerAny ds not_triggered
  -- `r` is the first that succeeded
  succeeds_any :
      (pre : List (Option CompletionResult)) (r : CompletionResult)
      (post : List (Option CompletionResult))
      → ds ≡ pre ++ some r ∷ post
      → All NoSuccess pre
      → Succeeded r
      → TriggerAny ds (fire true (r ∷ []))
  -- all failed, and `r` is the last
  fails_any :
      (pre : Results) (r : CompletionResult)
      → ds ≡ map some (pre ++ r ∷ [])
      → All HasFailed (pre ++ r ∷ [])
      → TriggerAny ds (fire false (r ∷ []))

-- The loop's variables at its end.
abbrev unresolved_after : Bool → List (Option CompletionResult) → Bool
unresolved_after u [] = u
unresolved_after u (none ∷ ds) = unresolved_after true ds
unresolved_after u (some r ∷ ds) = unresolved_after u ds

abbrev failure_after :
    Option CompletionResult → List (Option CompletionResult) → Option CompletionResult
failure_after f [] = f
failure_after f (none ∷ ds) = failure_after f ds
failure_after f (some r ∷ ds) = failure_after (some r) ds

loop-none :
    (u : Bool) (f : Option CompletionResult) (ds : List (Option CompletionResult))
    → trigger_any_loop u f (none ∷ ds) ≡ trigger_any_loop true f ds
unfolding trigger_any_loop
loop-none true f ds = refl
loop-none false none ds = refl
loop-none false (some r) ds = refl

loop-success :
    (u : Bool) (f : Option CompletionResult) (r : CompletionResult)
    (ds : List (Option CompletionResult))
    → Succeeded r
    → trigger_any_loop u f (some r ∷ ds) ≡ done (fire true (r ∷ []))
unfolding trigger_any_loop
loop-success true f r ds h = ground (arith, h)
loop-success false none r ds h = ground (arith, h)
loop-success false (some q) r ds h = ground (arith, h)

loop-failure :
    (u : Bool) (f : Option CompletionResult) (r : CompletionResult)
    (ds : List (Option CompletionResult))
    → HasFailed r
    → trigger_any_loop u f (some r ∷ ds) ≡ trigger_any_loop u (some r) ds
unfolding trigger_any_loop
loop-failure true f r ds h = ground (arith, h)
loop-failure false none r ds h = ground (arith, h)
loop-failure false (some q) r ds h = ground (arith, h)

unresolved_stays : (ds : List (Option CompletionResult)) → unresolved_after true ds ≡ true
unresolved_stays [] = refl
unresolved_stays (none ∷ ds) = unresolved_stays ds
unresolved_stays (some r ∷ ds) = unresolved_stays ds

-- The loop stops at the first success, or runs to its end.
abbrev LoopCase : Bool → Option CompletionResult → List (Option CompletionResult) → Type 0
LoopCase u f ds =
    ((pre : List (Option CompletionResult)) × (r : CompletionResult) × (post : List
        (Option CompletionResult))
      × (ds ≡ pre ++ some r ∷ post)
      × All NoSuccess pre
      × Succeeded r
      × (trigger_any_loop u f ds ≡ done (fire true (r ∷ []))))
    ⊎ (All NoSuccess ds
        × (trigger_any_loop u f ds
            ≡ trigger_any_loop (unresolved_after u ds) (failure_after f ds) []))

loop-cases :
    (u : Bool) (f : Option CompletionResult) (ds : List (Option CompletionResult)) → LoopCase u f ds
loop-cases u f [] = inr (tt, refl)
loop-cases u f (none ∷ ds) = elim (loop-cases true f ds) [
  | inl (pre, r, post, e, a, h, q) ↦
      inl (none ∷ pre, r, post, ap (λ l. none ∷ l) e, (tt, a), h, loop-none u f ds ∙ q)
  | inr (a, q) ↦ inr ((tt, a), loop-none u f ds ∙ q)
]
loop-cases u f (some r ∷ ds) = elim (Bool-cases r.successful) [
  | inl e ↦ inl ([], r, ds, refl, tt, e, loop-success u f r ds e)
  | inr e ↦ elim (loop-cases u (some r) ds) [
    | inl (pre, s, post, p, a, h, q) ↦
        inl (some r ∷ pre, s, post, ap (λ l. some r ∷ l) p, (e, a), h, loop-failure u f r ds e ∙ q)
    | inr (a, q) ↦ inr ((e, a), loop-failure u f r ds e ∙ q)
  ]
]

-- Dependencies of which none is unresolved: the last one is what the loop keeps.
last_failure :
    (f : Option CompletionResult) (q : CompletionResult) (ds : List (Option CompletionResult))
    → HasFailed q
    → All NoSuccess ds
    → unresolved_after false ds ≡ false
    → (pre : Results) × (r : CompletionResult) × (some q ∷ ds ≡ map some (pre ++ r ∷ []))
      × All HasFailed (pre ++ r ∷ [])
      × (failure_after (some q) ds ≡ some r)
last_failure f q [] h a u = ([], q, refl, (h, tt), refl)
last_failure f q (none ∷ ds) h a u = absurd (false≢true (sym u ∙ unresolved_stays ds))
last_failure f q (some r ∷ ds) h a u =
    let (pre, l, e, b, t) = last_failure f r ds a.0 a.1 u in
    (q ∷ pre, l, ap (λ l. some q ∷ l) e, (h, b), t)

unresolved_member :
    (ds : List (Option CompletionResult))
    → unresolved_after false ds ≡ true
    → (pre : List (Option CompletionResult)) × (post : List (Option CompletionResult)) × (ds
        ≡ pre ++ none ∷ post)
unresolved_member [] u = absurd (false≢true u)
unresolved_member (none ∷ ds) u = ([], ds, refl)
unresolved_member (some r ∷ ds) u =
    let (pre, post, e) = unresolved_member ds u in (some r ∷ pre, post, ap (λ l. some r ∷ l) e)

loop_end :
    (d : Option CompletionResult) (ds : List (Option CompletionResult))
    → All NoSuccess (d ∷ ds)
    → (t : Trigger) × (trigger_any_loop
          (unresolved_after false (d ∷ ds))
          (failure_after none (d ∷ ds))
          []
        ≡ done t)
      × TriggerAny (d ∷ ds) t
unfolding trigger_any_loop
loop_end d ds a = elim (Bool-cases (unresolved_after false (d ∷ ds))) [
  | inl u ↦ (not_triggered, rw u refl, waits_any a (inr (unresolved_member (d ∷ ds) u)))
  | inr u ↦ none_unresolved d a u
]
  where
    none_unresolved :
        (d : Option CompletionResult)
        → All NoSuccess (d ∷ ds)
        → unresolved_after false (d ∷ ds) ≡ false
        → (t : Trigger) × (trigger_any_loop
              (unresolved_after false (d ∷ ds))
              (failure_after none (d ∷ ds))
              []
            ≡ done t)
          × TriggerAny (d ∷ ds) t
    none_unresolved none a u = absurd (false≢true (sym u ∙ unresolved_stays ds))
    none_unresolved (some q) a u =
        let (pre, r, e, b, t) = last_failure none q ds a.0 a.1 u in
        (fire false (r ∷ []), rw (u, t) refl, fails_any pre r e b)

-- triggerAny always decides, without a panic: success with the first dependency that succeeded; if
-- none did, it waits while one is not resolved or where there are none, and otherwise it fails with
-- the last of the failures.
pub trigger_any_trigger_lem :
    (ds : List (Option CompletionResult))
    → (t : Trigger) × (trigger_any_trigger ds ≡ done t) × TriggerAny ds t
unfolding trigger_any_trigger
trigger_any_trigger_lem [] = (not_triggered, refl, waits_any tt (inl refl))
trigger_any_trigger_lem (d ∷ ds) = elim (loop-cases false none (d ∷ ds)) [
  | inl (pre, r, post, e, a, h, q) ↦ (fire true (r ∷ []), q, succeeds_any pre r post e a h)
  | inr (a, q) ↦ let (t, p, c) = loop_end d ds a in (t, q ∙ p, c)
]
