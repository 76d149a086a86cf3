-- ===== src/Persistence/Provider/Journal.antt =====
-- What is persisted in memory is read back (persistence/in_memory_provider.go with PersistReceive of
-- persistence/plugin.go).
use mathlib.Core.List.{append-nil, append_assoc}
use text.Mathlib.TextPositions.{eq_refl}
use text.Mathlib.TextEquality.{eq_iff}
use completer.Prelude.{
  ℕ, suc, ◌+◌, ◌≡◌, refl, sym, ap, ◌∙◌, inl, inr, String, List, [], ◌∷◌, ◌++◌, false, arith, done,
  subst, length, length-append, for_each, drop, Bool-cases,
}
use text.Mathlib.Text.{◌==◌}
use completer.Persistence.Provider.{
  Entry, Store, load_or_init, store_entry, enumerate, in_memory_get_events, in_memory_persist_event,
  new_in_memory_provider,
}
use completer.Persistence.Mixin.{Mixin, persist_receive}

module _ {M : Type 0} where
  load_or_init-store_entry :
      (name : String) (e : Entry M) (store : Store M)
      → load_or_init name (store_entry name e store) ≡ e
  unfolding load_or_init store_entry
  load_or_init-store_entry name e [] = ground (arith, eq_refl name)
  load_or_init-store_entry name e ((k, old) ∷ rest) =
      ground (arith, load_or_init-store_entry name e rest)

  -- An entry of another name is left alone.
  load_or_init-other :
      (name other : String) (e : Entry M) (store : Store M)
      → (name == other) ≡ false
      → load_or_init other (store_entry name e store) ≡ load_or_init other store
  unfolding load_or_init store_entry
  load_or_init-other name other e [] h = ground (arith, h)
  load_or_init-other name other e ((k, old) ∷ rest) h = elim (Bool-cases (k == name)) [
    | inl q ↦ ground (arith, q, h, ap (λ x. x == other) ((eq_iff k name).0 q))
    | inr q ↦ ground (arith, q, load_or_init-other name other e rest h)
  ]

  persist_receive-events :
      (interval : ℕ) (m : M) (x : Mixin (Store M))
      → (y : Mixin (Store M)) × (persist_receive (new_in_memory_provider interval) m x ≡ done y)
        × (y.name ≡ x.name)
        × (y.event_index ≡ suc x.event_index)
        × ((load_or_init x.name y.journal).events
            ≡ (load_or_init x.name x.journal).events ++ m ∷ [])
        × ((other : String)
            → (x.name == other) ≡ false
            → load_or_init other y.journal ≡ load_or_init other x.journal)
  unfolding persist_receive new_in_memory_provider in_memory_persist_event
  persist_receive-events interval m x = (
    _,
    refl,
    refl,
    refl,
    ap (λ (e : Entry M). e.events) (load_or_init-store_entry x.name _ x.journal),
    λ other h. load_or_init-other x.name other _ x.journal h,
  )

  pub persisted_events :
      (interval : ℕ) (ms : List M) (x : Mixin (Store M))
      → (y : Mixin (Store M)) × (for_each (persist_receive (new_in_memory_provider interval)) ms x
          ≡ done y)
        × (y.name ≡ x.name)
        × (y.event_index ≡ x.event_index + length ms)
        × ((load_or_init x.name y.journal).events ≡ (load_or_init x.name x.journal).events ++ ms)
        × ((other : String)
            → (x.name == other) ≡ false
            → load_or_init other y.journal ≡ load_or_init other x.journal)
  unfolding for_each
  persisted_events interval [] x = (x, refl, refl, omega arith, sym (append-nil _), λ other h. refl)
  persisted_events interval (m ∷ ms) x =
      let (z, e, name, index, events, others) = persist_receive-events interval m x in
      let (y, e', name', index', events', others') = persisted_events interval ms z in
      (
        y,
        rw e e',
        name' ∙ name,
        omega (arith, index, index'),
        subst (λ n. (load_or_init n y.journal).events ≡ (load_or_init n z.journal).events ++ ms)
              name events'
            ∙ rw events (append_assoc _ (m ∷ []) ms),
        λ other h. others' other (rw name h) ∙ others other h,
      )

  drop-append : (xs ys : List M) → drop (length xs) (xs ++ ys) ≡ ys
  drop-append [] ys = refl
  drop-append (x ∷ xs) ys = drop-append xs ys

  -- What is read from an entry's end before some messages were added to it.
  read_added :
      (name : String) (store : Store M) (old ms : List M)
      → (load_or_init name store).events ≡ old ++ ms
      → in_memory_get_events name (length old) store ≡ enumerate 0 ms
  unfolding in_memory_get_events
  read_added name store old [] e = ground (arith, e, append-nil old)
  read_added name store old (m ∷ ms) e =
      ground (arith, e, length-append old (m ∷ ms), drop-append old (m ∷ ms))

  pub read_all :
      (name : String) (store : Store M) (ms : List M)
      → (load_or_init name store).events ≡ ms
      → in_memory_get_events name 0 store ≡ enumerate 0 ms
  read_all name store ms e = read_added name store [] ms e

  -- Persisting messages in memory never fails and advances the event index by their number. GetEvents
  -- from 0 then gives the actor's older messages and the new ones, numbered from 0; from the number
  -- of the older ones it gives the new ones, numbered from 0 again and not from where it starts; and
  -- for every other actor it gives what it gave before.
  pub get_events-persist_receive :
      (interval : ℕ) (ms : List M) (x : Mixin (Store M))
      → (y : Mixin (Store M)) × (for_each (persist_receive (new_in_memory_provider interval)) ms x
          ≡ done y)
        × (y.event_index ≡ x.event_index + length ms)
        × (in_memory_get_events x.name 0 y.journal
            ≡ enumerate 0 ((load_or_init x.name x.journal).events ++ ms))
        × (in_memory_get_events x.name (length (load_or_init x.name x.journal).events) y.journal
            ≡ enumerate 0 ms)
        × ((other : String) (start : ℕ)
            → (x.name == other) ≡ false
            → in_memory_get_events other start y.journal
              ≡ in_memory_get_events other start x.journal)
  get_events-persist_receive interval ms x =
      let (y, e, name, index, events, others) = persisted_events interval ms x in
      (
        y,
        e,
        index,
        read_all x.name y.journal _ events,
        read_added x.name y.journal _ ms events,
        λ other start h. same_events other start x.journal y.journal (others other h),
      )
    where
      same_events :
          (other : String) (start : ℕ) (s t : Store M)
          → load_or_init other t ≡ load_or_init other s
          → in_memory_get_events other start t ≡ in_memory_get_events other start s
      same_events other start s t h = unfold in_memory_get_events in rw h refl
