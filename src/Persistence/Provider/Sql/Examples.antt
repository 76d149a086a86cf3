-- ===== src/Persistence/Provider/Sql/Examples.antt =====
-- The database as a list of rows, and an actor that journals two events and is started again.
use completer.Prelude.{
  ℕ, ◌+◌, ◌≡◌, refl, sym, List, [], ◌∷◌, ◌++◌, Option, none, some, false, arith, Outcome, done,
  for_each, length,
}
use completer.Persistence.Provider.{enumerate}
use completer.Persistence.Provider.Sql.{
  EventRow, JournalDb, JournalDbLaws, Codec, wanted, new_sql_provider, read_rows, Iteration,
  complete, cut_short,
}
use completer.Persistence.Provider.Sql.Journal.{Holds, IsRead, get_events-persisted}
use completer.Persistence.Mixin.{Mixin, persist_receive}

abbrev pub list_db : JournalDb (List EventRow)
list_db = record {
  replace_event = λ r d. some (d ++ r ∷ []);
  select_events = λ name start d. some (wanted name start d, complete);
  replace_snapshot = λ r d. some d;
  select_snapshot = λ name d. some none;
}

some-injective : {a b : List EventRow} → some a ≡ some b → a ≡ b
some-injective e = cc

abbrev answer : List EventRow → Iteration → Option (List EventRow × Iteration)
answer rs ended = some (rs, ended)

answer-injective :
    (a b : List EventRow) (i j : Iteration) → answer a i ≡ answer b j → (a ≡ b) × (i ≡ j)
answer-injective a b i j e = (cc, cc)

unlike : complete ≡ cut_short → ⊥
unlike e = cc

pub list_db-JournalDbLaws : JournalDbLaws list_db (λ d. d)
list_db-JournalDbLaws = record {
  inserted = λ r d e h. some-injective (rw (← h) refl);
  selected = λ name start bound d rs h e. sym (answer-injective _ _ _ _ e).0;
  selected_first = λ name start bound d rs h e. absurd (unlike (answer-injective _ _ _ _ e).1);
}

abbrev extract_number : List ℕ → Option ℕ
extract_number [] = none
extract_number (m ∷ rest) = some m

abbrev number_codec : Codec ℕ
number_codec = record {
  message_name = λ m. "number";
  marshal = λ m. some (m ∷ []);
  extract_data = λ name bytes. extract_number bytes;
}

number_codec_decodes :
    (m : ℕ) (bytes : List ℕ)
    → number_codec.marshal m ≡ some bytes
    → number_codec.extract_data (number_codec.message_name m) bytes ≡ some m
number_codec_decodes m [] h = absurd (cc)
number_codec_decodes m (k ∷ rest) h = ground (arith, h)

abbrev numbers : List ℕ
numbers = 5 ∷ 6 ∷ []

abbrev fresh : Mixin (List EventRow)
fresh = record {
  event_index = 0;
  name = "a";
  recovering = false;
  snapshot_requested = false;
  journal = [];
}

abbrev row : ℕ → ℕ → EventRow
row i m = record { actor_name = "a"; event_type = "number"; event_index = i; event = m ∷ [] }

abbrev left : Mixin (List EventRow)
left = record fresh { event_index = 2; journal = row 0 5 ∷ row 1 6 ∷ [] }

both_persisted :
    for_each (persist_receive (new_sql_provider number_codec list_db 10)) (5 ∷ 6 ∷ []) fresh
    ≡ done left
unfolding for_each persist_receive new_sql_provider
both_persisted = refl

nothing_held :
    Holds number_codec list_db (λ d. d) list_db-JournalDbLaws number_codec_decodes 0 fresh []
unfolding read_rows
nothing_held = record { from_here = omega arith; rising = tt; read = refl }

get_events-persisted_example :
    (left.name ≡ "a")
    × (left.event_index ≡ 0 + length numbers)
    × IsRead number_codec list_db
        (λ d. d)
        list_db-JournalDbLaws
        number_codec_decodes
        "a"
        0
        left.journal
        ([] ++ enumerate 0 (5 ∷ 6 ∷ []))
get_events-persisted_example =
    get_events-persisted number_codec list_db (λ d. d) list_db-JournalDbLaws number_codec_decodes 10
      0 (5 ∷ 6 ∷ []) fresh left [] nothing_held both_persisted

-- The actor sums the numbers that it receives.
abbrev add : ℕ → ℕ → Outcome ℕ
add m n = done (n + m)

-- A database whose iterations are cut short behind the first row.
abbrev first_row : List EventRow → List EventRow
first_row [] = []
first_row (r ∷ rs) = r ∷ []

abbrev failing_db : JournalDb (List EventRow)
failing_db = record list_db {
  select_events = λ name start d. some (first_row (wanted name start d), cut_short);
}
