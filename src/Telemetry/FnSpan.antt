-- ===== src/Telemetry/FnSpan.antt =====
-- FnSpan (server/fntracer.go): a span whose baggage items become tags before it is finished. The
-- wrapped span is a parameter.
use text.Mathlib.Text.{starts_with}
use completer.Prelude.{String, List, [], ◌∷◌, if◌then◌else◌}

-- Context().ForeachBaggageItem as the items that it visits, SetTag, and Finish or
-- FinishWithOptions.
pub record Span (S : Type 0) : Type 0 where
  pub baggage_items : S → List (String × String)
  pub set_tag : (key value : String) → S → S
  pub finish : S → S

module _ {S : Type 0} (span : Span S) where
  unfoldable pub copy_items : List (String × String) → S → S
  copy_items [] s = s
  copy_items ((k, v) ∷ rest) s =
      copy_items rest (if starts_with k "fn" then span.set_tag k v s else s)

  unfoldable pub copy_baggage_items_to_tags : S → S
  unfolding copy_items
  copy_baggage_items_to_tags s = copy_items (span.baggage_items s) s

  unfoldable pub finish_span : S → S
  unfolding copy_baggage_items_to_tags
  finish_span s = span.finish (copy_baggage_items_to_tags s)
