-- ===== src/Telemetry/Labels.antt =====
-- The labels of a span have distinct keys (getLabels and the loop over the registered keys of
-- server/prom_zip_collector.go).
use mathlib.Core.List.{append_assoc, append-nil}
use text.Mathlib.Text.{◌==◌}
use completer.Prelude.{
  ◌≡◌, sym, ap, ◌∙◌, subst, inl, inr, String, List, [], ◌∷◌, ◌++◌, none, some, false, if◌then◌else◌,
  All, Bool-cases,
}
use completer.Telemetry.Texts.{lookup, set, keys, Distinct, set-new, keys-append}
use completer.Telemetry.Collector.{Annotation, is_label, get_labels_from, label_values}

-- The keys of a span's labels.
abbrev pub label_keys : List Annotation → List String
label_keys [] = []
label_keys (a ∷ rest) = if is_label a then a.key ∷ label_keys rest else label_keys rest

Distinct-before :
    (xs ys : List String) (k : String) → Distinct (xs ++ k ∷ ys) → All (λ j. (j == k) ≡ false) xs
Distinct-before [] ys k d = tt
Distinct-before (x ∷ xs) ys k d = (later xs d.0, Distinct-before xs ys k d.1)
  where
    later : (zs : List String) → All (λ y. (x == y) ≡ false) (zs ++ k ∷ ys) → (x == k) ≡ false
    later [] h = h.0
    later (z ∷ zs) h = later zs h.1

-- A key that is added behind distinct ones.
abbrev added : List (String × String) → String → String → List (String × String)
added labels k v = labels ++ (k, v) ∷ []

set-added :
    (k v : String) (labels : List (String × String)) (ks : List String)
    → Distinct (keys labels ++ k ∷ ks)
    → (set k v labels ≡ added labels k v) × (keys (added labels k v) ++ ks ≡ keys labels ++ k ∷ ks)
set-added k v labels ks d = (
  set-new k v labels (Distinct-before (keys labels) ks k d),
  ap (λ x. x ++ ks) (keys-append labels ((k, v) ∷ [])) ∙ append_assoc (keys labels) (k ∷ []) ks,
)

pub keys-label_values :
    (ks : List String) (from_span labels : List (String × String))
    → Distinct (keys labels ++ ks)
    → keys (label_values ks from_span labels) ≡ keys labels ++ ks
unfolding label_values
keys-label_values [] from_span labels d = sym (append-nil (keys labels))
keys-label_values (k ∷ ks) from_span labels d =
    let v : String = elim (lookup from_span k) [ none ↦ "" | some v ↦ v ] in
    let (new, same) = set-added k v labels ks d in
    ap (λ m. keys (label_values ks from_span m)) new
    ∙ keys-label_values ks from_span (added labels k v) (subst Distinct (sym same) d)
    ∙ same

-- getLabels gives distinct keys, and labels of just these keys, if the annotations' are distinct.
pub get_labels_from-keys :
    (ks : List String) (labels : List (String × String)) (rest : List Annotation)
    → keys labels ≡ ks
    → Distinct (keys labels ++ label_keys rest)
    → (keys (get_labels_from ks labels rest).1 ≡ (get_labels_from ks labels rest).0)
      × ((get_labels_from ks labels rest).0 ≡ keys labels ++ label_keys rest)
unfolding get_labels_from
get_labels_from-keys ks labels [] e d = (e, sym e ∙ sym (append-nil (keys labels)))
get_labels_from-keys ks labels (a ∷ rest) e d = elim (Bool-cases (is_label a)) [
  | inr q ↦ simp q (get_labels_from-keys ks labels rest e (simp q at d))
  | inl q ↦
      let d' : Distinct (keys labels ++ a.key ∷ label_keys rest) = simp q at d in
      let (new, same) = set-added a.key a.value labels (label_keys rest) d' in
      let step =
        get_labels_from-keys (ks ++ a.key ∷ []) (added labels a.key a.value) rest
          (keys-append labels ((a.key, a.value) ∷ []) ∙ ap (λ x. x ++ a.key ∷ []) e)
          (subst Distinct (sym same) d') in
      simp (q, new) (step.0, step.1 ∙ same)
]
