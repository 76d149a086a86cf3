-- ===== src/Telemetry/Registered.antt =====
-- A metric is always given the labels that it was registered with (server/prom_zip_collector.go).
use text.Mathlib.Text.{◌==◌}
use completer.Prelude.{
  ℕ, ◌≡◌, ◌≢◌, ◌⊎◌, refl, sym, ap, ◌∙◌, subst, inl, inr, String, List, [], ◌∷◌, none, some, true,
  false, All, Bool-cases, Outcome, done, for_each,
}
use completer.Telemetry.Texts.{
  lookup, set, keys, Distinct, text_refl, text_eq→, lookup-set_same, lookup-set_other,
}
use completer.Telemetry.Collector.{
  ZipkinSpan, MetricName, histogram, summary, Prometheus, PrometheusCollector, get_labels,
  label_values, report, register_span, report_span, collect, collect_all, new_prometheus_collector,
}
use completer.Telemetry.Labels.{label_keys, keys-label_values, get_labels_from-keys}

-- What the code relies on of Prometheus: a metric of a free and valid name, with distinct label keys,
-- is registered, which leaves other names free; and a metric takes a value for labels of just its
-- keys, which changes no name.
pub record PrometheusLaws {R : Type 0} (prometheus : Prometheus R)
    (IsFree : MetricName → R → Type 0) (IsValid : MetricName → List String → Type 0) : Type 0 where
  pub registers :
      (m : MetricName) (ks : List String) (r : R)
      → IsFree m r
      → IsValid m ks
      → Distinct ks
      → (q : R) × (prometheus.register m ks r ≡ some q)
        × ((n : MetricName) → n ≢ m → IsFree n r → IsFree n q)
  pub observes :
      (m : MetricName) (ks : List String) (labels : List (String × String)) (t : ℕ) (r : R)
      → keys labels ≡ ks
      → (q : R) × (prometheus.observe m ks labels t r ≡ some q)
        × ((n : MetricName) → IsFree n r → IsFree n q)

module _ {R : Type 0} (prometheus : Prometheus R) (IsFree : MetricName → R → Type 0)
    (IsValid : MetricName → List String → Type 0)
    (laws : PrometheusLaws prometheus IsFree IsValid) where
  -- A span whose label keys are distinct and valid for its metrics.
  abbrev pub IsCollectable : ZipkinSpan → Type 0
  IsCollectable span =
      Distinct (label_keys span.annotations)
      × IsValid (histogram span.name) (label_keys span.annotations)
      × IsValid (summary span.name) (label_keys span.annotations)

  -- A span name has no metrics, or two with the same distinct label keys.
  abbrev IsNew : PrometheusCollector R → String → Type 0
  IsNew c n =
      (lookup c.registered_label_keys_map n ≡ none)
      × IsFree (histogram n) c.registry
      × IsFree (summary n) c.registry

  abbrev HasMetrics : PrometheusCollector R → String → List String → Type 0
  HasMetrics c n ks =
      Distinct ks
      × (lookup c.registered_label_keys_map n ≡ some ks)
      × (lookup c.histogram_vec_map n ≡ some ks)
      × (lookup c.summary_vec_map n ≡ some ks)

  abbrev pub IsRegistered : PrometheusCollector R → Type 0
  IsRegistered c = (n : String) → IsNew c n ⊎ ((ks : List String) × HasMetrics c n ks)

  report-done :
      (metric : String → MetricName) (ks : List String) (labels : List (String × String))
      (span : ZipkinSpan) (r : R)
      → keys labels ≡ ks
      → (q : R) × (report prometheus metric (some ks) labels span r ≡ done q)
        × ((n : MetricName) → IsFree n r → IsFree n q)
  unfolding report
  report-done metric ks labels span r e =
      let (q, h, free) = laws.observes (metric span.name) ks labels span.duration r e in
      (q, rw h refl, free)

  -- With a metric of each kind and labels of their keys, the report changes the registry only.
  report_span-done :
      (labels : List (String × String)) (span : ZipkinSpan) (c : PrometheusCollector R)
      (ks : List String)
      → HasMetrics c span.name ks
      → keys labels ≡ ks
      → IsRegistered c
      → (d : PrometheusCollector R) × (report_span prometheus labels span c ≡ done d)
        × IsRegistered d
  unfolding report_span
  report_span-done labels span c ks (distinct, registered, in_histograms, in_summaries) e
        invariant =
      let (r, h, free) = report-done histogram ks labels span c.registry e in
      let (q, k, free') = report-done summary ks labels span r e in
      (
        record c { registry = q },
        rw (in_histograms, in_summaries, h, k) refl,
        λ n. elim (invariant n) [
          | inl (new, fh, fs) ↦ inl (new, free' _ (free _ fh), free' _ (free _ fs))
          | inr known ↦ inr known
        ],
      )

  other_name :
      (metric : String → MetricName) (k n : String)
      → ((a b : String) → metric a ≡ metric b → a ≡ b)
      → (k == n) ≡ false
      → metric n ≢ metric k
  other_name metric k n inj h e =
      unequal (sym (text_refl k) ∙ ap (λ x. k == x) (sym (inj n k e)) ∙ h)
    where
      unequal : true ≡ false → ⊥
      unequal p = cc

  register_span-done :
      (ks : List String) (span : ZipkinSpan) (c : PrometheusCollector R)
      → Distinct ks
      → IsValid (histogram span.name) ks
      → IsValid (summary span.name) ks
      → IsNew c span.name
      → IsRegistered c
      → (d : PrometheusCollector R) × (register_span prometheus ks span c ≡ done d)
        × HasMetrics d span.name ks
        × IsRegistered d
  unfolding register_span
  register_span-done ks span c distinct vh vs (new, fh, fs) invariant =
      let (r, h, free) = laws.registers (histogram span.name) ks c.registry fh vh distinct in
      let (q, k, free') =
        laws.registers (summary span.name) ks r (free (summary span.name) (λ e. cc e) fs) vs
          distinct in
      (
        after q,
        rw (h, k) refl,
        own q,
        λ n. elim (Bool-cases (span.name == n)) [
          | inl e ↦ inr (
              subst (λ x. (xs : List String) × HasMetrics (after q) x xs) (text_eq→ span.name n e)
                (ks, own q))
          | inr e ↦ elim (invariant n) [
            | inl (absent, gh, gs) ↦ inl (
              lookup-set_other span.name n ks c.registered_label_keys_map e ∙ absent,
              free' _ (λ p. cc p) (free _ (other_name histogram span.name n (λ a b p. cc p) e) gh),
              free' _ (other_name summary span.name n (λ a b p. cc p) e) (free _ (λ p. cc p) gs),
            )
            | inr (xs, (d, p, p', p'')) ↦ inr (
              xs,
              (
                d,
                lookup-set_other span.name n ks c.registered_label_keys_map e ∙ p,
                lookup-set_other span.name n ks c.histogram_vec_map e ∙ p',
                lookup-set_other span.name n ks c.summary_vec_map e ∙ p'',
              ),
            )
          ]
        ],
      )
    where
      after : R → PrometheusCollector R
      after q = record {
        histogram_vec_map = set span.name ks c.histogram_vec_map;
        registered_label_keys_map = set span.name ks c.registered_label_keys_map;
        summary_vec_map = set span.name ks c.summary_vec_map;
        registry = q;
      }

      own : (q : R) → HasMetrics (after q) span.name ks
      own q = (
        distinct,
        lookup-set_same span.name ks c.registered_label_keys_map,
        lookup-set_same span.name ks c.histogram_vec_map,
        lookup-set_same span.name ks c.summary_vec_map,
      )

  abbrev Collected : Outcome (PrometheusCollector R) → Type 0
  Collected m = (d : PrometheusCollector R) × (m ≡ done d) × IsRegistered d

  collect-Collected :
      (span : ZipkinSpan) (c : PrometheusCollector R)
      → IsCollectable span
      → IsRegistered c
      → Collected (collect prometheus span c)
  unfolding collect get_labels
  collect-Collected span c (distinct, vh, vs) invariant = elim (invariant span.name) [
    | inl (new, fh, fs) ↦
        let (own, all) = get_labels_from-keys [] [] span.annotations refl distinct in
        let (d, h, metrics, known) =
          register_span-done (get_labels span).0 span c (subst Distinct (sym all) distinct)
            (subst (IsValid (histogram span.name)) (sym all) vh)
            (subst (IsValid (summary span.name)) (sym all) vs) (new, fh, fs) invariant in
        let (e, k, known') =
          report_span-done (get_labels span).1 span d (get_labels span).0 metrics own known in
        (e, rw (new, collect) (rw h k), known')
    | inr (ks, metrics) ↦
        let (e, k, known) =
          report_span-done (label_values ks (get_labels span).1 []) span c ks metrics
            (keys-label_values ks (get_labels span).1 [] (metrics.0)) invariant in
        (e, rw (metrics.1, collect) k, known)
  ]

  collect_all-Collected :
      (spans : List ZipkinSpan) (c : PrometheusCollector R)
      → All IsCollectable spans
      → IsRegistered c
      → Collected (collect_all prometheus spans c)
  unfolding collect_all for_each
  collect_all-Collected [] c h invariant = (c, refl, invariant)
  collect_all-Collected (span ∷ spans) c h invariant =
      let (d, e, k) = collect-Collected span c h.0 invariant in
      let (f, g, l) = collect_all-Collected spans d h.1 k in (f, rw e g, l)

  -- A new collector takes any sequence of spans without a panic, however the labels of the spans of
  -- one name differ, and afterwards every span name has no metrics, or a histogram and a summary
  -- with one list of distinct label keys; if the label keys of each span are distinct and valid, and
  -- no metric of a span name was registered before.
  pub collect_all-IsRegistered :
      (spans : List ZipkinSpan) (r : R)
      → All IsCollectable spans
      → ((m : MetricName) → IsFree m r)
      → (d : PrometheusCollector R) × (collect_all prometheus spans (new_prometheus_collector r)
          ≡ done d)
        × IsRegistered d
  unfolding lookup
  collect_all-IsRegistered spans r h free =
      collect_all-Collected spans (new_prometheus_collector r) h
        (λ n. inl (refl, free (histogram n), free (summary n)))
