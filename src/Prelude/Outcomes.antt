-- ===== src/Prelude/Outcomes.antt =====
-- What a call comes to: it returns, it panics, or the model's fuel is used up. `Ensures P` is
-- total for the fuel: it is false of a call that runs out.
use mathlib.Core.Path.{◌≡◌, refl}
use mathlib.Core.List.{List, [], ◌∷◌, ◌++◌}

-- The panics of the source, the run-time panic of reading through a nil pointer, and the panic with an
-- error of a library.
pub data Panic : Type 0 where
  unsupported_operation invalid_dependencies duplicate_stage dependent_stage_not_found : Panic
  not_single_valued invalid_parent_deps nil_dereference graph_not_initialized : Panic
  marshalling_failed persistence_failed reading_events_failed persisting_snapshot_failed : Panic
  library_error : Panic

pub data Outcome {ℓ} (A : Type ℓ) : Type ℓ where
  done : A → Outcome A
  panicked : Panic → Outcome A
  out_of_fuel : Outcome A

pub done-injective {ℓ} : {A : Type ℓ} {a b : A} → Outcome.done a ≡ Outcome.done b → a ≡ b
done-injective e = cc

infixl 5 ◌>>=◌
abbrev pub ◌>>=◌ {ℓ κ} : {A : Type ℓ} {B : Type κ} → Outcome A → (A → Outcome B) → Outcome B
done a >>= f = f a
panicked p >>= f = panicked p
out_of_fuel >>= f = out_of_fuel

-- The call ends, and if it returns, its result satisfies `P`.
abbrev pub Ensures {ℓ} : {A : Type ℓ} → (A → Type 0) → Outcome A → Type 0
Ensures P (done a) = P a
Ensures P (panicked p) = Unit
Ensures P out_of_fuel = ⊥

pub Ensures-bind {ℓ κ} :
    {A : Type ℓ} {B : Type κ} (P : A → Type 0) (Q : B → Type 0) (m : Outcome A) (f : A → Outcome B)
    → Ensures P m
    → ((a : A) → P a → Ensures Q (f a))
    → Ensures Q (m >>= f)
Ensures-bind P Q (done a) f h k = k a h
Ensures-bind P Q (panicked p) f h k = tt
Ensures-bind P Q out_of_fuel f h k = h

pub Ensures-mono {ℓ} :
    {A : Type ℓ} (P Q : A → Type 0) (m : Outcome A)
    → Ensures P m
    → ((a : A) → P a → Q a)
    → Ensures Q m
Ensures-mono P Q (done a) h k = k a h
Ensures-mono P Q (panicked p) h k = tt
Ensures-mono P Q out_of_fuel h k = h

-- The postcondition may use the equation of the call.
pub Ensures-eq {ℓ} :
    {A : Type ℓ} (P : A → Type 0) (m : Outcome A)
    → Ensures (λ a. Unit) m
    → ((a : A) → m ≡ done a → P a)
    → Ensures P m
Ensures-eq P (done a) h k = k a refl
Ensures-eq P (panicked p) h k = tt
Ensures-eq P out_of_fuel h k = h

-- If the call returns, its result satisfies `P`.
abbrev pub Whenever {ℓ} : {A : Type ℓ} → (A → Type 0) → Outcome A → Type 0
Whenever P (done a) = P a
Whenever P (panicked p) = Unit
Whenever P out_of_fuel = Unit

pub Whenever-bind {ℓ κ} :
    {A : Type ℓ} {B : Type κ} (P : A → Type 0) (Q : B → Type 0) (m : Outcome A) (f : A → Outcome B)
    → Whenever P m
    → ((a : A) → P a → Whenever Q (f a))
    → Whenever Q (m >>= f)
Whenever-bind P Q (done a) f h k = k a h
Whenever-bind P Q (panicked p) f h k = tt
Whenever-bind P Q out_of_fuel f h k = tt

pub Whenever-mono {ℓ} :
    {A : Type ℓ} (P Q : A → Type 0) (m : Outcome A)
    → Whenever P m
    → ((a : A) → P a → Q a)
    → Whenever Q m
Whenever-mono P Q (done a) h k = k a h
Whenever-mono P Q (panicked p) h k = tt
Whenever-mono P Q out_of_fuel h k = tt

pub Whenever-any {ℓ} :
    {A : Type ℓ} (P : A → Type 0) (m : Outcome A) → ((a : A) → P a) → Whenever P m
Whenever-any P (done a) k = k a
Whenever-any P (panicked p) k = tt
Whenever-any P out_of_fuel k = tt

pub Whenever-eq : {A : Type 0} (m : Outcome A) → Whenever (λ a. m ≡ done a) m
Whenever-eq (done a) = refl
Whenever-eq (panicked p) = tt
Whenever-eq out_of_fuel = tt

-- A call that is known to return is known to do what holds whenever it does.
pub Ensures-Whenever {ℓ} :
    {A : Type ℓ} (P Q : A → Type 0) (m : Outcome A)
    → Ensures P m
    → Whenever Q m
    → Ensures (λ a. P a × Q a) m
Ensures-Whenever P Q (done a) h k = (h, k)
Ensures-Whenever P Q (panicked p) h k = tt
Ensures-Whenever P Q out_of_fuel h k = h

-- A loop that runs a body on each element in turn and stops at a panic.
unfoldable pub for_each {ℓ κ} :
    {A : Type ℓ} {S : Type κ} → (A → S → Outcome S) → List A → S → Outcome S
for_each body [] s = done s
for_each body (x ∷ xs) s = body x s >>= for_each body xs

-- The invariant rule of the loop, for a relation to the state before it.
pub for_each_inv {ℓ κ} :
    {A : Type ℓ} {S : Type κ} (P : S → Type 0) (body : A → S → Outcome S)
    → ((x : A) (s : S) → P s → Ensures P (body x s))
    → (xs : List A) (s : S) → P s
    → Ensures P (for_each body xs s)
unfolding for_each
for_each_inv P body keep [] s h = h
for_each_inv P body keep (x ∷ xs) s h =
    Ensures-bind P P (body x s) (for_each body xs) (keep x s h)
      (λ t k. for_each_inv P body keep xs t k)

pub for_each-Whenever {ℓ κ} :
    {A : Type ℓ} {S : Type κ} (P : S → Type 0) (body : A → S → Outcome S)
    → ((x : A) (s : S) → P s → Whenever P (body x s))
    → (xs : List A) (s : S) → P s
    → Whenever P (for_each body xs s)
unfolding for_each
for_each-Whenever P body keep [] s h = h
for_each-Whenever P body keep (x ∷ xs) s h =
    Whenever-bind P P (body x s) (for_each body xs) (keep x s h)
      (λ t k. for_each-Whenever P body keep xs t k)

-- Two loops in turn are one.
pub for_each-append {ℓ κ} :
    {A : Type ℓ} {S : Type κ} (body : A → S → Outcome S) (xs ys : List A) (s : S)
    → for_each body (xs ++ ys) s ≡ (for_each body xs s >>= for_each body ys)
unfolding for_each
for_each-append body [] ys s = refl
for_each-append {S = S} body (x ∷ xs) ys s = first (body x s) (λ t. for_each-append body xs ys t)
  where
    first :
        (m : Outcome S)
        → ((t : S) → for_each body (xs ++ ys) t ≡ (for_each body xs t >>= for_each body ys))
        → (m >>= for_each body (xs ++ ys)) ≡ ((m >>= for_each body xs) >>= for_each body ys)
    first (done t) rest = rest t
    first (panicked p) rest = refl
    first out_of_fuel rest = refl
