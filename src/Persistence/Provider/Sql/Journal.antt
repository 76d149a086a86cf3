-- ===== src/Persistence/Provider/Sql/Journal.antt =====
-- What is persisted in the database is read back (persistence/sql_provider.go with PersistReceive of
-- persistence/plugin.go).
use mathlib.Core.List.{append-nil, append_assoc}
use text.Mathlib.TextPositions.{eq_refl}
use completer.Prelude.{
  ℕ, suc, ◌+◌, ◌≤◌, ◌<◌, ◌≡◌, refl, sym, ap, ◌∙◌, subst, inl, inr, ◌⊎◌, String, List, [], ◌∷◌, ◌++◌,
  none, some, arith, Outcome, done, panicked, out_of_fuel, done-injective, ◌>>=◌, length, for_each,
  reading_events_failed, Option-cases,
}
use completer.Persistence.Provider.{enumerate}
use completer.Persistence.Provider.Sql.{
  EventRow, JournalDb, JournalDbLaws, Codec, persist_event, read_rows, get_events, new_sql_provider,
  wanted, IsRising, query_ended, complete, cut_short, scan_failed,
}
use completer.Persistence.Mixin.{Mixin, persist_receive}

wanted-append :
    (name : String) (start : ℕ) (rs ss : List EventRow)
    → wanted name start (rs ++ ss) ≡ wanted name start rs ++ wanted name start ss
wanted-append name start [] ss = refl
wanted-append name start (r ∷ rs) ss = ground (arith, wanted-append name start rs ss)

IsRising-append :
    (b c : ℕ) (rs : List EventRow) (r : EventRow)
    → IsRising b rs
    → b ≤ r.event_index
    → r.event_index < c
    → IsRising c (rs ++ r ∷ [])
IsRising-append b c [] r h l m = m
IsRising-append b c (s ∷ []) r h l m = (omega (arith, h, l), m)
IsRising-append b c (s ∷ t ∷ rs) r h l m = (h.0, IsRising-append b c (t ∷ rs) r h.1 l m)

module _ {M D : Type 0} (c : Codec M) (db : JournalDb D) (rows : D → List EventRow)
    (laws : JournalDbLaws db rows)
    (decodes : (m : M) (bytes : List ℕ)
      → c.marshal m ≡ some bytes
      → c.extract_data (c.message_name m) bytes ≡ some m) where
  read_rows-append :
      (rs : List EventRow) (es : List (ℕ × M)) (r : EventRow) (m : M)
      → read_rows c db rs ≡ (es, none)
      → c.extract_data r.event_type r.event ≡ some m
      → read_rows c db (rs ++ r ∷ []) ≡ (es ++ (r.event_index, m) ∷ [], none)
  unfolding read_rows
  read_rows-append [] es r m h e = ground (arith, h, e)
  read_rows-append (s ∷ rs) es r m h e = elim (Option-cases (c.extract_data s.event_type s.event)) [
    | inl q ↦ absurd (ground (arith, h, q))
    | inr (k, q) ↦
        let first : (s.event_index, k) ∷ (read_rows c db rs).0 ≡ es = ground (arith, h, q) in
        let whole : read_rows c db rs ≡ ((read_rows c db rs).0, none) = ground (arith, h, q) in
        ground (arith, q, first, read_rows-append rs (read_rows c db rs).0 r m whole e)
  ]

  -- One event more in the journal.
  abbrev row_of : Mixin D → M → List ℕ → EventRow
  row_of x m bytes = record {
    actor_name = x.name;
    event_type = c.message_name m;
    event_index = x.event_index;
    event = bytes;
  }

  persisted_row :
      (interval : ℕ) (m : M) (x y : Mixin D)
      → persist_receive (new_sql_provider c db interval) m x ≡ done y
      → (bytes : List ℕ) × (c.marshal m ≡ some bytes)
        × (y.name ≡ x.name)
        × (y.event_index ≡ suc x.event_index)
        × (rows y.journal ≡ rows x.journal ++ row_of x m bytes ∷ [])
  unfolding persist_receive new_sql_provider persist_event
  persisted_row interval m x y h = elim (Option-cases (c.marshal m)) [
    | inl q ↦ absurd (ground (arith, h, q))
    | inr (bytes, q) ↦ elim (Option-cases (db.replace_event (row_of x m bytes) x.journal)) [
      | inl k ↦ absurd (ground (arith, h, q, k))
      | inr (e, k) ↦ (
        bytes,
        q,
        ground (arith, h, q, k),
        ground (arith, h, q, k),
        subst (λ d. rows d ≡ rows x.journal ++ row_of x m bytes ∷ []) (ground (arith, h, q, k))
            (laws.inserted (row_of x m bytes) x.journal e k),
      )
    ]
  ]

  -- What an actor's journal holds from an index on, with its next event index.
  pub record Holds (start : ℕ) (x : Mixin D) (es : List (ℕ × M)) : Type 0 where
    pub from_here : start ≤ x.event_index
    pub rising : IsRising x.event_index (wanted x.name start (rows x.journal))
    pub read : read_rows c db (wanted x.name start (rows x.journal)) ≡ (es, none)

  persist_receive-Holds :
      (interval start : ℕ) (m : M) (x y : Mixin D) (es : List (ℕ × M))
      → Holds start x es
      → persist_receive (new_sql_provider c db interval) m x ≡ done y
      → Holds start y (es ++ (x.event_index, m) ∷ [])
  persist_receive-Holds interval start m x y es h p =
      let (bytes, q, name, index, added) = persisted_row interval m x y p in
      let r = row_of x m bytes in
      let tail : wanted x.name start (r ∷ []) ≡ r ∷ [] =
        ground (arith, eq_refl x.name, h.from_here) in
      let same : wanted y.name start (rows y.journal)
          ≡ wanted x.name start (rows x.journal) ++ r ∷ [] =
        ap (λ n. wanted n start (rows y.journal)) name
        ∙ ap (wanted x.name start) added
        ∙ wanted-append x.name start (rows x.journal) (r ∷ [])
        ∙ ap (λ t. wanted x.name start (rows x.journal) ++ t) tail in
      record {
        from_here = omega (arith, h.from_here, index);
        rising = rw same (
            IsRising-append x.event_index y.event_index (wanted x.name start (rows x.journal)) r
              h.rising (omega arith) (omega (arith, index)));
        read =
            ap (read_rows c db) same
            ∙ read_rows-append (wanted x.name start (rows x.journal)) es r m h.read
                (decodes m bytes q);
      }

  persisted_Holds :
      (interval start : ℕ) (ms : List M) (x y : Mixin D) (es : List (ℕ × M))
      → Holds start x es
      → for_each (persist_receive (new_sql_provider c db interval)) ms x ≡ done y
      → (y.name ≡ x.name)
        × (y.event_index ≡ x.event_index + length ms)
        × Holds start y (es ++ enumerate x.event_index ms)
  unfolding for_each enumerate
  persisted_Holds interval start [] x y es h p =
      let same : x ≡ y = done-injective p in
      (
        ap (λ (z : Mixin D). z.name) (sym same),
        omega (arith, ap (λ (z : Mixin D). z.event_index) same),
        subst (λ (z : Mixin D). Holds start z (es ++ [])) same (rw (append-nil es) h),
      )
  persisted_Holds interval start (m ∷ ms) x y es h p =
      first (persist_receive (new_sql_provider c db interval) m x)
        (persisted_Holds interval start ms) refl p
    where
      first :
          (o : Outcome (Mixin D))
          → ((x y : Mixin D) (es : List (ℕ × M))
              → Holds start x es
              → for_each (persist_receive (new_sql_provider c db interval)) ms x ≡ done y
              → (y.name ≡ x.name)
                × (y.event_index ≡ x.event_index + length ms)
                × Holds start y (es ++ enumerate x.event_index ms))
          → persist_receive (new_sql_provider c db interval) m x ≡ o
          → (o >>= for_each (persist_receive (new_sql_provider c db interval)) ms) ≡ done y
          → (y.name ≡ x.name)
            × (y.event_index ≡ x.event_index + length (m ∷ ms))
            × Holds start y (es ++ enumerate x.event_index (m ∷ ms))
      first (done z) rest q p =
          let (bytes, coded, name, index, added) = persisted_row interval m x z q in
          let (name', index', held) =
            rest z y (es ++ (x.event_index, m) ∷ [])
              (persist_receive-Holds interval start m x z es h q) p in
          (
            name' ∙ name,
            omega (arith, index, index'),
            subst (Holds start y)
                (append_assoc es ((x.event_index, m) ∷ []) (enumerate z.event_index ms)
                  ∙ ap (λ i. es ++ (x.event_index, m) ∷ enumerate i ms) index)
                held,
          )
      first (panicked k) rest q p = absurd (cc)
      first out_of_fuel rest q p = absurd (cc)

  -- Rows that are all read are read from the first on.
  read_rows-prefix :
      (rs rest : List EventRow) (es : List (ℕ × M))
      → read_rows c db (rs ++ rest) ≡ (es, none)
      → (firsts others : List (ℕ × M)) × (es ≡ firsts ++ others)
        × (read_rows c db rs ≡ (firsts, none))
  unfolding read_rows
  read_rows-prefix [] rest es h = ([], es, refl, refl)
  read_rows-prefix (r ∷ rs) rest es h = elim (Option-cases (c.extract_data r.event_type r.event)) [
    | inl q ↦ absurd (ground (arith, h, q))
    | inr (m, q) ↦
        let first : (r.event_index, m) ∷ (read_rows c db (rs ++ rest)).0 ≡ es =
          ground (arith, h, q) in
        let whole : read_rows c db (rs ++ rest) ≡ ((read_rows c db (rs ++ rest)).0, none) =
          ground (arith, h, q) in
        let (firsts, others, split, read) =
          read_rows-prefix rs rest (read_rows c db (rs ++ rest)).0 whole in
        (
          (r.event_index, m) ∷ firsts,
          others,
          sym first ∙ ap (λ l. (r.event_index, m) ∷ l) split,
          ground (arith, q, read),
        )
  ]

  -- What GetEvents gives, of the events that the journal holds, by how its query ends.
  abbrev pub IsRead : String → ℕ → D → List (ℕ × M) → Type 0
  IsRead name start d es =
      ((query_ended db name start d ≡ none)
        × (get_events c db name start d ≡ ([], some reading_events_failed)))
      ⊎ (((query_ended db name start d ≡ some complete)
            × (get_events c db name start d ≡ (es, none)))
          ⊎ (((query_ended db name start d ≡ some cut_short)
                × (firsts others : List (ℕ × M)) × (es ≡ firsts ++ others)
                × (get_events c db name start d ≡ (firsts, none)))
              ⊎ (query_ended db name start d ≡ some scan_failed)))

  get_events-IsRead :
      (start : ℕ) (x : Mixin D) (es : List (ℕ × M))
      → Holds start x es
      → IsRead x.name start x.journal es
  unfolding get_events
  get_events-IsRead start x es h = elim (Option-cases (db.select_events x.name start x.journal)) [
    | inl q ↦ inl (rw (q, query_ended) refl, rw (q, get_events) refl)
    | inr ((rs, complete), q) ↦
        let all = laws.selected x.name start x.event_index x.journal rs h.rising q in
        inr (inl (rw (q, query_ended) refl, rw (q, get_events) (ap (read_rows c db) all ∙ h.read)))
    | inr ((rs, cut_short), q) ↦
        let (rest, split) =
          laws.selected_first x.name start x.event_index x.journal rs h.rising q in
        let (firsts, others, parts, read) =
          read_rows-prefix rs rest es (ap (read_rows c db) (sym split) ∙ h.read) in
        inr (inr (inl (rw (q, query_ended) refl, firsts, others, parts, rw (q, get_events) read)))
    | inr ((rs, scan_failed), q) ↦ inr (inr (inr (rw (q, query_ended) refl)))
  ]

  -- If the database held for an actor, from an index on, the events `es`, with rising indices below
  -- its next event index, and some events are then persisted for it without a panic, the event
  -- index grows by their number. GetEvents from the same index then panics if its query fails,
  -- gives `es` followed by the new events, each under the event index that it was persisted at, if
  -- the iteration over the rows is complete, and only the first ones of these, without a panic, if
  -- an error cuts the iteration short; or a row could not be scanned. Protocol buffers that were
  -- written can be read.
  pub get_events-persisted :
      (interval start : ℕ) (ms : List M) (x y : Mixin D) (es : List (ℕ × M))
      → Holds start x es
      → for_each (persist_receive (new_sql_provider c db interval)) ms x ≡ done y
      → (y.name ≡ x.name)
        × (y.event_index ≡ x.event_index + length ms)
        × IsRead x.name start y.journal (es ++ enumerate x.event_index ms)
  get_events-persisted interval start ms x y es h p =
      let (name, index, held) = persisted_Holds interval start ms x y es h p in
      (
        name,
        index,
        subst (λ n. IsRead n start y.journal (es ++ enumerate x.event_index ms)) name
            (get_events-IsRead start y (es ++ enumerate x.event_index ms) held),
      )
