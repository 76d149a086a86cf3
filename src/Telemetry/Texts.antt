-- ===== src/Telemetry/Texts.antt =====
-- Maps from texts, as lists in the order of insertion.
use text.Mathlib.Text.{◌==◌}
use text.Mathlib.TextEquality.{eq_iff}
use completer.Prelude.{
  ◌≡◌, refl, sym, ap, subst, inl, inr, String, List, [], ◌∷◌, ◌++◌, Option, none, some, true, false,
  if◌then◌else◌, is_some, All, Bool-cases,
}

unfoldable pub lookup {ℓ} : {A : Type ℓ} → List (String × A) → String → Option A
lookup [] k = none
lookup ((j, v) ∷ m) k = if j == k then some v else lookup m k

unfoldable pub set {ℓ} : {A : Type ℓ} → String → A → List (String × A) → List (String × A)
set k v [] = (k, v) ∷ []
set k v ((j, w) ∷ m) = if j == k then (k, v) ∷ m else (j, w) ∷ set k v m

abbrev pub keys {ℓ} : {A : Type ℓ} → List (String × A) → List String
keys [] = []
keys ((j, v) ∷ m) = j ∷ keys m

-- No text stands twice in a list.
abbrev pub Distinct : List String → Type 0
Distinct [] = Unit
Distinct (x ∷ xs) = All (λ y. (x == y) ≡ false) xs × Distinct xs

pub text_refl : (s : String) → (s == s) ≡ true
text_refl s = (eq_iff s s).1 refl

pub text_eq→ : (s t : String) → (s == t) ≡ true → s ≡ t
text_eq→ s t = (eq_iff s t).0

module _ {A : Type 0} where
  pub lookup-set_same : (k : String) (v : A) (m : List (String × A)) → lookup (set k v m) k ≡ some v
  unfolding lookup set
  lookup-set_same k v [] = rw (text_refl k) refl
  lookup-set_same k v ((j, w) ∷ m) = elim (Bool-cases (j == k)) [
    | inl e ↦ rw (e, text_refl k) refl
    | inr e ↦ rw (e) (rw e (lookup-set_same k v m))
  ]

  pub lookup-set_other :
      (k n : String) (v : A) (m : List (String × A))
      → (k == n) ≡ false
      → lookup (set k v m) n ≡ lookup m n
  unfolding lookup set
  lookup-set_other k n v [] h = rw h refl
  lookup-set_other k n v ((j, w) ∷ m) h = elim (Bool-cases (j == k)) [
    | inl e ↦ rw (e, h, subst (λ x. (x == n) ≡ false) (sym (text_eq→ j k e)) h) refl
    | inr e ↦ rw e (elim (Bool-cases (j == n)) [
      | inl q ↦ rw q refl
      | inr q ↦ rw q (lookup-set_other k n v m h)
    ])
  ]

  -- A key that is new goes to the end.
  pub set-new :
      (k : String) (v : A) (m : List (String × A))
      → All (λ j. (j == k) ≡ false) (keys m)
      → set k v m ≡ m ++ (k, v) ∷ []
  unfolding set
  set-new k v [] h = refl
  set-new k v ((j, w) ∷ m) h = rw (h.0) (ap (λ x. (j, w) ∷ x) (set-new k v m h.1))

  pub lookup-keys : (m : List (String × A)) → All (λ k. is_some (lookup m k) ≡ true) (keys m)
  unfolding lookup
  lookup-keys [] = tt
  lookup-keys ((j, v) ∷ m) = (rw (text_refl j) refl, weaken (keys m) (lookup-keys m))
    where
      weaken :
          (ks : List String)
          → All (λ k. is_some (lookup m k) ≡ true) ks
          → All (λ k. is_some (lookup ((j, v) ∷ m) k) ≡ true) ks
      weaken [] h = tt
      weaken (k ∷ ks) h =
          (elim (Bool-cases (j == k)) [ inl e ↦ rw e refl | inr e ↦ rw e (h.0) ], weaken ks h.1)

  pub keys-append : (m n : List (String × A)) → keys (m ++ n) ≡ keys m ++ keys n
  keys-append [] n = refl
  keys-append ((j, v) ∷ m) n = ap (λ x. j ∷ x) (keys-append m n)
