-- ===== src/Persistence/Streaming/Delivery.antt =====
-- What a subscription delivers, in all.
use mathlib.Core.List.{append-nil, append_assoc}
use completer.Prelude.{
  ℕ, ◌≡◌, sym, String, List, [], ◌∷◌, ◌++◌, map, Option, none, some, Bool, true, false, ◌&&◌,
  if◌then◌else◌, Bool-cases, inl, inr, arith,
}
use completer.Persistence.Streaming.{
  StreamEvent, BufferedSub, Step, published, stored, above, is_wanted, on_published, on_stored,
  steps, subscribe,
}

abbrev pub keep : {A : Type 0} → (A → Bool) → List A → List A
keep p [] = []
keep p (x ∷ xs) = if p x then x ∷ keep p xs else keep p xs

module _ {M : Type 0} (name : String) (from_index : ℕ) where
  abbrev pub stored_event : ℕ × M → StreamEvent M
  stored_event (i, m) = record { actor_name = name; event_index = i; event = m }

  -- The stored events, and the published ones that are wanted, each in order.
  abbrev pub stored_events : List (Step M) → List (StreamEvent M)
  stored_events [] = []
  stored_events (published e ∷ ss) = stored_events ss
  stored_events (stored s ∷ ss) = stored_event s ∷ stored_events ss

  abbrev pub wanted_events : List (Step M) → List (StreamEvent M)
  wanted_events [] = []
  wanted_events (published e ∷ ss) =
      if is_wanted name from_index e then e ∷ wanted_events ss else wanted_events ss
  wanted_events (stored s ∷ ss) = wanted_events ss

  abbrev pub highest_after : Option ℕ → List (Step M) → Option ℕ
  highest_after h [] = h
  highest_after h (published e ∷ ss) = highest_after h ss
  highest_after h (stored s ∷ ss) = highest_after (some from_index) ss

  -- A subscription whose buffer is not flushed yet.
  abbrev buffering : List (StreamEvent M) → Option ℕ → List (StreamEvent M) → BufferedSub M
  buffering bs h ds = record {
    committed = false;
    buffered_events = bs;
    highest_index = h;
    delivered = ds;
  }

  abbrev live : List (StreamEvent M) → Option ℕ → List (StreamEvent M) → BufferedSub M
  live bs h ds = record {
    committed = true;
    buffered_events = bs;
    highest_index = h;
    delivered = ds;
  }

  reading_lem :
      (ss : List (Step M)) (bs ds : List (StreamEvent M)) (h : Option ℕ)
      → steps name from_index ss (buffering bs h ds)
        ≡ buffering (bs ++ wanted_events ss) (highest_after h ss) (ds ++ stored_events ss)
  unfolding steps
  reading_lem [] bs ds h = rw (append-nil bs, append-nil ds)
  reading_lem (published e ∷ ss) bs ds h = elim (Bool-cases (is_wanted name from_index e)) [
    | inl q ↦ simp (q, on_published) (simp (reading_lem ss (bs ++ e ∷ []) ds h, append_assoc))
    | inr q ↦ simp (q, on_published) (reading_lem ss bs ds h)
  ]
  reading_lem (stored s ∷ ss) bs ds h =
      simp
        (on_stored, reading_lem ss bs (ds ++ stored_event s ∷ []) (some from_index), append_assoc)

  later_lem :
      (es bs ds : List (StreamEvent M)) (h : Option ℕ)
      → (steps name from_index (map published es) (live bs h ds)).delivered
        ≡ ds ++ keep (λ e. is_wanted name from_index e && above h e.event_index) es
  unfolding steps on_published
  later_lem [] bs ds h = sym (append-nil ds)
  later_lem (e ∷ es) bs ds h = ground (
    arith,
    later_lem es bs ds h,
    later_lem es bs (ds ++ e ∷ []) h,
    append_assoc ds (e ∷ []) (keep (λ e. is_wanted name from_index e && above h e.event_index) es),
  )

  -- A subscriber is called with every stored event that GetEvents gave, then with every wanted event
  -- that was published in the meantime, whether it was among the stored ones or not, and then with
  -- each wanted event published later, except that, if any stored event was given, one whose index
  -- is the index subscribed from is left out.
  pub delivered-subscribe :
      (reading : List (Step M)) (later : List (StreamEvent M))
      → (subscribe name from_index reading later).delivered
        ≡ (stored_events reading ++ wanted_events reading)
          ++ keep
              (λ e. is_wanted name from_index e && above (highest_after none reading) e.event_index)
              later
  unfolding subscribe
  delivered-subscribe reading later = rw (reading_lem reading [] [] none) (later_lem later _ _ _)
