-- ===== src/Blobs/Sql.antt =====
-- The store on a database (blobs/sql_blob_store.go). The database is a parameter: the row that a
-- query gives, and an insertion. `new_id` stands for uuid.NewRandom at each call, which is given the
-- state, and may fail.
use completer.Prelude.{ℕ, String, List, Option, none, some, length, ◌≡◌, ◌≢◌}
use completer.Blobs.{Blob, Fetched, found, blob_not_found, read_failed, Store}

pub data QueryResult : Type 0 where
  row : List ℕ → QueryResult
  no_rows : QueryResult
  query_failed : QueryResult

-- The table `blobs`, whose primary key is `blob_id`.
pub record BlobsTable (D : Type 0) : Type 0 where
  pub new_id : D → Option String
  pub select_blob_data : (blob_id : String) → D → QueryResult
  pub insert_blob : (prefix blob_id : String) → List ℕ → D → Option D

-- What the store relies on: a row that was inserted is selected by its key, and no other key's row
-- changes; an insertion under a key that has a row fails.
pub record BlobsTableLaws {D : Type 0} (t : BlobsTable D) : Type 0 where
  pub inserted :
      (prefix id : String) (b : List ℕ) (d e : D)
      → t.insert_blob prefix id b d ≡ some e
      → t.select_blob_data id e ≡ row b
  pub others :
      (prefix id other : String) (b : List ℕ) (d e : D)
      → t.insert_blob prefix id b d ≡ some e
      → id ≢ other
      → t.select_blob_data other e ≡ t.select_blob_data other d
  pub primary_key :
      (prefix id : String) (b c : List ℕ) (d : D)
      → t.select_blob_data id d ≡ row c
      → t.insert_blob prefix id b d ≡ none

module _ {D : Type 0} (t : BlobsTable D) where
  -- The failure to insert leaves the database as it is.
  unfoldable pub create : (prefix content_type : String) → Option (List ℕ) → D → Option Blob × D
  create prefix content_type input d = elim (t.new_id d) [
    | none ↦ (none, d)
    | some id ↦ elim input [
      | none ↦ (none, d)
      | some bytes ↦ elim (t.insert_blob prefix id bytes d) [
        | none ↦ (none, d)
        | some e ↦
            (some (record { id = id; content_type = content_type; length = length bytes }), e)
      ]
    ]
  ]

  unfoldable pub read : (flow_id blob_id : String) → D → Fetched
  read flow_id blob_id d = elim (t.select_blob_data blob_id d) [
    | row b ↦ found b
    | no_rows ↦ blob_not_found
    | query_failed ↦ read_failed
  ]

  unfoldable pub sql_store : Store D
  unfolding create read
  sql_store = record { read = read; create = create }
