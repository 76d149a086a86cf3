-- ===== src/Graph/Strategy/WaitForAll.antt =====
-- What waitForAll decides (graph/stage_strategy.go), against an independent description.
use completer.Prelude.{
  ◌≤◌, ◌<◌, ◌≡◌, refl, ap, ◌⊎◌, inl, inr, List, [], ◌∷◌, ◌++◌, map, Option, none, some, Bool, true,
  false, arith, length, length-map, All, Bool-cases,
}
use completer.Model.Datum.{CompletionResult}
use completer.Graph.Strategy.{
  Trigger, not_triggered, resolved_results, first_failed, wait_for_all_trigger,
}

abbrev pub Results : Type 0
Results = List CompletionResult

abbrev pub Succeeded : CompletionResult → Type 0
Succeeded r = r.successful ≡ true

abbrev pub HasFailed : CompletionResult → Type 0
HasFailed r = r.successful ≡ false

abbrev pub fire : Bool → Results → Trigger
fire status inputs = record { should_trigger = true; status = status; inputs = inputs }

-- The decision of waitForAll, by what the dependencies came to.
pub data WaitForAll (ds : List (Option CompletionResult)) : Trigger → Type 0 where
  -- a dependency is not resolved
  waits :
      (pre post : List (Option CompletionResult))
      → ds ≡ pre ++ none ∷ post
      → WaitForAll ds not_triggered
  -- all succeeded: their results, in order
  succeeds : (rs : Results) → ds ≡ map some rs → All Succeeded rs → WaitForAll ds (fire true rs)
  -- all are resolved, and `r` is the first that failed
  fails :
      (pre : Results) (r : CompletionResult) (post : Results)
      → ds ≡ map some (pre ++ r ∷ post)
      → All Succeeded pre
      → HasFailed r
      → WaitForAll ds (fire false (r ∷ []))

length-resolved_results-le :
    (ds : List (Option CompletionResult)) → length (resolved_results ds) ≤ length ds
unfolding resolved_results
length-resolved_results-le [] = omega arith
length-resolved_results-le (none ∷ ds) = omega (arith, length-resolved_results-le ds)
length-resolved_results-le (some r ∷ ds) = omega (arith, length-resolved_results-le ds)

-- Either every dependency is resolved, or one is not.
resolved-cases :
    (ds : List (Option CompletionResult))
    → ((rs : Results) × (ds ≡ map some rs) × (resolved_results ds ≡ rs))
      ⊎ ((pre : List (Option CompletionResult)) × (post : List (Option CompletionResult)) × (ds
            ≡ pre ++ none ∷ post)
          × (length (resolved_results ds) < length ds))
unfolding resolved_results
resolved-cases [] = inl ([], refl, refl)
resolved-cases (none ∷ ds) = inr ([], ds, refl, omega (arith, length-resolved_results-le ds))
resolved-cases (some r ∷ ds) = elim (resolved-cases ds) [
  | inl (rs, e, q) ↦ inl (r ∷ rs, ap (λ l. some r ∷ l) e, ap (λ l. r ∷ l) q)
  | inr (pre, post, e, q) ↦ inr (some r ∷ pre, post, ap (λ l. some r ∷ l) e, omega arith)
]

failed-cases :
    (rs : Results)
    → (All Succeeded rs × (first_failed (map some rs) ≡ none))
      ⊎ ((pre : Results) × (r : CompletionResult) × (post : Results) × (rs ≡ pre ++ r ∷ post)
          × All Succeeded pre
          × HasFailed r
          × (first_failed (map some rs) ≡ some r))
unfolding first_failed
failed-cases [] = inl (tt, refl)
failed-cases (r ∷ rs) = elim (Bool-cases r.successful) [
  | inr e ↦ inr ([], r, rs, refl, tt, e, ground (arith, e))
  | inl e ↦ elim (failed-cases rs) [
    | inl (a, q) ↦ inl ((e, a), ground (arith, e, q))
    | inr (pre, f, post, p, a, h, q) ↦
        inr (r ∷ pre, f, post, ap (λ l. r ∷ l) p, (e, a), h, ground (arith, e, q))
  ]
]

resolved_results-map : (rs : Results) → resolved_results (map some rs) ≡ rs
unfolding resolved_results
resolved_results-map [] = refl
resolved_results-map (r ∷ rs) = ap (λ l. r ∷ l) (resolved_results-map rs)

all_resolved : (rs : Results) → WaitForAll (map some rs) (wait_for_all_trigger (map some rs))
unfolding wait_for_all_trigger
all_resolved rs = elim (failed-cases rs) [
  | inl (a, q) ↦
      let e : wait_for_all_trigger (map some rs) ≡ fire true rs =
        ground (arith, q, resolved_results-map rs, length-map some rs) in
      rw e (succeeds rs refl a)
  | inr (pre, r, post, p, a, h, q) ↦
      let e : wait_for_all_trigger (map some rs) ≡ fire false (r ∷ []) =
        ground (arith, q, resolved_results-map rs, length-map some rs) in
      rw e (fails pre r post (ap (map some) p) a h)
]

-- waitForAll triggers exactly when every dependency is resolved: with success and all results in
-- order where all succeeded, and otherwise with failure and the result of the first that failed.
pub wait_for_all_trigger_lem :
    (ds : List (Option CompletionResult)) → WaitForAll ds (wait_for_all_trigger ds)
wait_for_all_trigger_lem ds = elim (resolved-cases ds) [
  | inl (rs, e, q) ↦ rw e (all_resolved rs)
  | inr (pre, post, e, less) ↦
      let stuck : wait_for_all_trigger ds ≡ not_triggered =
        unfold wait_for_all_trigger in ground arith in
      rw stuck (waits pre post e)
]
