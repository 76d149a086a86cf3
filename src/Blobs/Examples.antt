-- ===== src/Blobs/Examples.antt =====
-- The stores at work: two blobs in memory, and a table as a list of rows.
use completer.Prelude.{
  ℕ, ◌≡◌, refl, String, List, [], ◌∷◌, Option, none, some, if◌then◌else◌, arith, itoa,
}
use text.Mathlib.Text.{◌==◌}
use text.Mathlib.TextEquality.{eq_iff}
use text.Mathlib.TextPositions.{eq_refl}
use completer.Blobs.{Blob, found}
use completer.Blobs.InMemory.{new_in_mem_blob_store, in_mem_store, lookup, create, read}
use completer.Blobs.Contract.{IsBlobStore, IsFresh, in_mem_store-IsBlobStore}
use completer.Blobs.Sql.{
  BlobsTable, BlobsTableLaws, QueryResult, row, no_rows, query_failed, sql_store,
}
use completer.Blobs.Api.{json, body, create_blob, get_blob}
use completer.Blobs.RoundTrip.{Post, after_posts, get_blob-create_blob}
use completer.Blobs.SqlContract.{sql_store-IsBlobStore}

-- A new store has no blobs.
pub new_in_mem_blob_store-IsFresh : IsFresh new_in_mem_blob_store
unfolding lookup
new_in_mem_blob_store-IsFresh i h = refl

-- A row per key, the newest first, beside the random numbers that are still to be drawn.
abbrev Table : Type 0
Table = List (String × List ℕ) × List String

abbrev select_from : String → List (String × List ℕ) → QueryResult
select_from id [] = no_rows
select_from id ((k, b) ∷ rest) = if k == id then row b else select_from id rest

abbrev inserted_into : QueryResult → Table → Option Table
inserted_into (row c) d = none
inserted_into query_failed d = none
inserted_into no_rows d = some d

abbrev next_id : List String → Option String
next_id [] = none
next_id (id ∷ ids) = some id

abbrev pub rows_table : BlobsTable Table
rows_table = record {
  new_id = λ d. next_id d.1;
  select_blob_data = λ id d. select_from id d.0;
  insert_blob = λ prefix id b d. inserted_into (select_from id d.0) ((id, b) ∷ d.0, d.1);
}

inserted_into-some : (q : QueryResult) (d e : Table) → inserted_into q d ≡ some e → e ≡ d
inserted_into-some (row c) d e h = absurd (cc)
inserted_into-some query_failed d e h = absurd (cc)
inserted_into-some no_rows d e h = cc

pub rows_table-BlobsTableLaws : BlobsTableLaws rows_table
rows_table-BlobsTableLaws = record {
  inserted = λ prefix id b d e h.
      rw (inserted_into-some (select_from id d.0) ((id, b) ∷ d.0, d.1) e h)
        (ground (arith, eq_refl id));
  others = λ prefix id other b d e h ne.
      rw (inserted_into-some (select_from id d.0) ((id, b) ∷ d.0, d.1) e h)
        (ground (arith, eq_iff id other, ne));
  primary_key = λ prefix id b c d h. rw h refl;
}

-- The promise at the first call of Create in memory: the blob is read back.
in_mem_store_reads_back :
    (p : String)
    → in_mem_store.read p "0"
        (in_mem_store.create "flow" "text/plain" (some (1 ∷ 2 ∷ [])) new_in_mem_blob_store).1
      ≡ found (1 ∷ 2 ∷ [])
unfolding in_mem_store read create itoa lookup
in_mem_store_reads_back p = refl

sql_store-IsBlobStore_example : IsBlobStore (sql_store rows_table) (λ d. Unit)
sql_store-IsBlobStore_example = sql_store-IsBlobStore rows_table rows_table-BlobsTableLaws

abbrev post : Post
post = record { prefix = "flow"; content_type = "text/plain"; input = some (1 ∷ 2 ∷ []) }

abbrev posted : Blob
posted = record { id = "0"; content_type = "text/plain"; length = 2 }

post_answered :
    (create_blob in_mem_store "flow" "text/plain" (some (1 ∷ 2 ∷ [])) new_in_mem_blob_store).0
    ≡ json 200 posted
unfolding create_blob in_mem_store create itoa
post_answered = refl

get_blob-create_blob_example :
    (bytes : List ℕ) × (some (1 ∷ 2 ∷ []) ≡ some bytes)
    × ((p : String)
        → get_blob in_mem_store p "0" (
            after_posts in_mem_store IsFresh in_mem_store-IsBlobStore
              (post ∷ [])
              (create_blob in_mem_store "flow" "text/plain"
                (some (1 ∷ 2 ∷ []))
                new_in_mem_blob_store).1)
          ≡ body 200 bytes)
get_blob-create_blob_example =
    get_blob-create_blob in_mem_store IsFresh in_mem_store-IsBlobStore post new_in_mem_blob_store
      posted (post ∷ []) new_in_mem_blob_store-IsFresh post_answered
