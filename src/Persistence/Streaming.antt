-- ===== src/Persistence/Streaming.antt =====
-- Subscriptions to an actor's journal (persistence/streaming.go). What happens in a subscription is
-- a sequence of steps: the event stream publishes an event, GetEvents calls back with a stored one,
-- and the buffer is flushed. `delivered` holds the calls of the subscriber's function.
pub mod Delivery
pub mod Provider
use completer.Prelude.{
  ℕ, String, List, [], ◌∷◌, ◌++◌, map, Option, none, some, Bool, true, false, ltb, leb, ◌&&◌,
  if◌then◌else◌,
}
use text.Mathlib.Text.{◌==◌}

pub record StreamEvent (M : Type 0) : Type 0 where
  pub actor_name : String
  pub event_index : ℕ
  pub event : M

-- `highest_index` is `none` for the source's -1.
pub record BufferedSub (M : Type 0) : Type 0 where
  pub committed : Bool
  pub buffered_events : List (StreamEvent M)
  pub highest_index : Option ℕ
  pub delivered : List (StreamEvent M)

abbrev pub above : Option ℕ → ℕ → Bool
above none i = true
above (some h) i = ltb h i

-- What happens while the journal is read.
pub data Step (M : Type 0) : Type 0 where
  published : StreamEvent M → Step M
  stored : ℕ × M → Step M

module _ {M : Type 0} (persistence_name : String) (from_index : ℕ) where
  abbrev pub new_subscription : BufferedSub M
  new_subscription = record {
    committed = false;
    buffered_events = [];
    highest_index = none;
    delivered = [];
  }

  -- The predicate of the child subscription.
  unfoldable pub is_wanted : StreamEvent M → Bool
  is_wanted e = (e.actor_name == persistence_name) && leb from_index e.event_index

  -- The child subscription's function, behind its predicate.
  unfoldable pub on_published : StreamEvent M → BufferedSub M → BufferedSub M
  unfolding is_wanted
  on_published e b =
      if is_wanted e
      then (if b.committed
          then (if above b.highest_index e.event_index
              then record b { delivered = b.delivered ++ e ∷ [] }
              else b)
          else record b { buffered_events = b.buffered_events ++ e ∷ [] })
      else b

  -- The callback of GetEvents.
  unfoldable pub on_stored : ℕ × M → BufferedSub M → BufferedSub M
  on_stored (i, m) b = record b {
    delivered =
        b.delivered ++ record { actor_name = persistence_name; event_index = i; event = m } ∷ [];
    highest_index = some from_index;
  }

  -- The end of SubscribeActorJournal.
  unfoldable pub commit : BufferedSub M → BufferedSub M
  commit b = record b { delivered = b.delivered ++ b.buffered_events; committed = true }

  unfoldable pub step : Step M → BufferedSub M → BufferedSub M
  unfolding on_published on_stored
  step (published e) b = on_published e b
  step (stored s) b = on_stored s b

  unfoldable pub steps : List (Step M) → BufferedSub M → BufferedSub M
  unfolding step
  steps [] b = b
  steps (s ∷ ss) b = steps ss (step s b)

  -- A subscription: what happens while the journal is read, the flush, and what is published later.
  unfoldable pub subscribe :
      (reading : List (Step M)) (later : List (StreamEvent M)) → BufferedSub M
  unfolding steps commit
  subscribe reading later = steps (map published later) (commit (steps reading new_subscription))
