-- ===== src/Telemetry/Examples.antt =====
-- Three spans collected with a registry that keeps the names of its metrics.
use text.Mathlib.Text.{◌==◌}
use completer.Prelude.{
  ◌≡◌, ◌≢◌, refl, ap, inl, inr, String, List, [], ◌∷◌, none, some, Bool, true, false, ◌||◌, ◌&&◌,
  if◌then◌else◌, Bool-cases, done,
}
use completer.Telemetry.Texts.{keys, text_refl, text_eq→}
use completer.Telemetry.Collector.{
  Annotation, ZipkinSpan, MetricName, histogram, summary, Prometheus, PrometheusCollector,
  collect_all, new_prometheus_collector,
}
use completer.Telemetry.Registered.{PrometheusLaws, IsRegistered, collect_all-IsRegistered}

abbrev same_metric : MetricName → MetricName → Bool
same_metric (histogram a) (histogram b) = a == b
same_metric (summary a) (summary b) = a == b
same_metric _ _ = false

abbrev registered : MetricName → List MetricName → Bool
registered m [] = false
registered m (n ∷ r) = same_metric m n || registered m r

abbrev same_keys : List String → List String → Bool
same_keys [] [] = true
same_keys (a ∷ as_) (b ∷ bs) = (a == b) && same_keys as_ bs
same_keys _ _ = false

abbrev strict : Prometheus (List MetricName)
strict = record {
  register = λ m ks r. if registered m r then none else some (m ∷ r);
  observe = λ m ks labels t r. if same_keys (keys labels) ks then some r else none;
}

abbrev IsFree : MetricName → List MetricName → Type 0
IsFree m r = registered m r ≡ false

abbrev IsValid : MetricName → List String → Type 0
IsValid m ks = Unit

other-same_metric : (n m : MetricName) → n ≢ m → same_metric n m ≡ false
other-same_metric (histogram a) (histogram b) h = elim (Bool-cases (a == b)) [
  | inl e ↦ absurd (h (ap histogram (text_eq→ a b e)))
  | inr e ↦ e
]
other-same_metric (summary a) (summary b) h = elim (Bool-cases (a == b)) [
  | inl e ↦ absurd (h (ap summary (text_eq→ a b e)))
  | inr e ↦ e
]
other-same_metric (histogram a) (summary b) h = refl
other-same_metric (summary a) (histogram b) h = refl

same_keys_refl : (ks : List String) → same_keys ks ks ≡ true
same_keys_refl [] = refl
same_keys_refl (k ∷ ks) = rw (text_refl k) (same_keys_refl ks)

strict-PrometheusLaws : PrometheusLaws strict IsFree IsValid
strict-PrometheusLaws = record {
  registers = λ m ks r free valid distinct.
      (m ∷ r, rw free refl, λ n other h. rw (other-same_metric n m other) h);
  observes = λ m ks labels t r e. (r, rw (e, same_keys_refl ks) refl, λ n h. h);
}

abbrev tag : String → String → Annotation
tag key value = record { key = key; is_string = true; value = value }

-- Two spans of one name with different labels, and a third of another.
abbrev spans : List ZipkinSpan
spans =
    record {
      name = "invoke";
      annotations = tag "fn_app" "a" ∷ tag "fn_path" "p" ∷ [];
      duration = 7;
    }
    ∷ record {
      name = "invoke";
      annotations = tag "fn_path" "q" ∷ tag "other" "z" ∷ [];
      duration = 9;
    }
    ∷ record { name = "commit"; annotations = []; duration = 1 }
    ∷ []

collect_all-IsRegistered_example :
    (d : PrometheusCollector (List MetricName)) × (collect_all strict spans
        (new_prometheus_collector [])
      ≡ done d)
    × IsRegistered strict IsFree IsValid strict-PrometheusLaws d
collect_all-IsRegistered_example =
    collect_all-IsRegistered strict IsFree IsValid strict-PrometheusLaws spans []
      ((((refl, tt), (tt, tt)), tt, tt), (((tt, tt), tt, tt), ((tt, tt, tt), tt))) (λ m. refl)
