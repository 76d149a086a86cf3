-- ===== src/Telemetry/Collector.antt =====
-- PrometheusCollector (server/prom_zip_collector.go). The registry of Prometheus is a parameter; a
-- nil or unfit metric is a panic.
use text.Mathlib.Text.{starts_with}
use completer.Prelude.{
  ℕ, String, List, [], ◌∷◌, ◌++◌, Option, none, some, Bool, ◌&&◌, if◌then◌else◌, Outcome, done,
  panicked, ◌>>=◌, nil_dereference, library_error, for_each,
}
use completer.Telemetry.Texts.{lookup, set}

-- `is_string` is whether the type of the annotation is AnnotationType_STRING.
pub record Annotation : Type 0 where
  pub key : String
  pub is_string : Bool
  pub value : String

pub record ZipkinSpan : Type 0 where
  pub name : String
  pub annotations : List Annotation
  pub duration : ℕ

-- The metric "flow_span_<span>_duration_secs_histogram", and that with "_summary".
pub data MetricName : Type 0 where
  histogram summary : (span : String) → MetricName

-- MustRegister of a new metric with label keys, which panics where it is `none`, and the metric's
-- With and Observe for the values of its labels.
pub record Prometheus (R : Type 0) : Type 0 where
  pub register : MetricName → (label_keys : List String) → R → Option R
  pub observe :
      MetricName
      → (label_keys : List String) → (labels : List (String × String)) → (duration : ℕ) → R
      → Option R

-- The metrics by their label keys, and the registry that they are part of.
pub record PrometheusCollector (R : Type 0) : Type 0 where
  pub histogram_vec_map : List (String × List String)
  pub registered_label_keys_map : List (String × List String)
  pub summary_vec_map : List (String × List String)
  pub registry : R

abbrev pub new_prometheus_collector : {R : Type 0} → R → PrometheusCollector R
new_prometheus_collector r = record {
  histogram_vec_map = [];
  registered_label_keys_map = [];
  summary_vec_map = [];
  registry = r;
}

abbrev pub is_label : Annotation → Bool
is_label a = a.is_string && starts_with a.key "fn"

-- The loop of getLabels.
unfoldable pub get_labels_from :
    List String → List (String × String) → List Annotation → List String × List (String × String)
get_labels_from ks labels [] = (ks, labels)
get_labels_from ks labels (a ∷ rest) =
    get_labels_from (if is_label a then ks ++ a.key ∷ [] else ks)
      (if is_label a then set a.key a.value labels else labels) rest

unfoldable pub get_labels : ZipkinSpan → List String × List (String × String)
get_labels span = get_labels_from [] [] span.annotations

-- The loop over the label keys that the metric was registered with.
unfoldable pub label_values :
    (expected : List String) → (from_span labels : List (String × String)) → List (String × String)
label_values [] from_span labels = labels
label_values (k ∷ ks) from_span labels =
    label_values ks from_span (set k (elim (lookup from_span k) [ none ↦ "" | some v ↦ v ]) labels)

module _ {R : Type 0} (prometheus : Prometheus R) where
  abbrev pub or_panic : Option R → Outcome R
  or_panic none = panicked library_error
  or_panic (some r) = done r

  -- A metric that is found in its map, with the labels.
  unfoldable pub report :
      (String → MetricName)
      → Option (List String)
      → (labels : List (String × String)) → ZipkinSpan
      → R
      → Outcome R
  report metric vec labels span r = elim vec [
    | none ↦ panicked nil_dereference
    | some ks ↦ or_panic (prometheus.observe (metric span.name) ks labels span.duration r)
  ]

  -- The metrics of a span name that is new.
  unfoldable pub register_span :
      (label_keys : List String)
      → ZipkinSpan
      → PrometheusCollector R
      → Outcome (PrometheusCollector R)
  register_span ks span c =
      or_panic (prometheus.register (histogram span.name) ks c.registry) >>= λ r.
      or_panic (prometheus.register (summary span.name) ks r) >>= λ q. done (record {
        histogram_vec_map = set span.name ks c.histogram_vec_map;
        registered_label_keys_map = set span.name ks c.registered_label_keys_map;
        summary_vec_map = set span.name ks c.summary_vec_map;
        registry = q;
      })

  unfoldable pub report_span :
      (labels : List (String × String))
      → ZipkinSpan
      → PrometheusCollector R
      → Outcome (PrometheusCollector R)
  report_span labels span c =
      report histogram (lookup c.histogram_vec_map span.name) labels span c.registry >>= λ r.
      report summary (lookup c.summary_vec_map span.name) labels span r >>= λ q.
      done (record c { registry = q })

  unfoldable pub collect : ZipkinSpan → PrometheusCollector R → Outcome (PrometheusCollector R)
  collect span c = elim (lookup c.registered_label_keys_map span.name) [
    | none ↦ register_span (get_labels span).0 span c >>= report_span (get_labels span).1 span
    | some expected ↦ report_span (label_values expected (get_labels span).1 []) span c
  ]

  unfoldable pub collect_all :
      List ZipkinSpan → PrometheusCollector R → Outcome (PrometheusCollector R)
  collect_all spans c = for_each collect spans c
