-- ===== src/Blobs/SqlContract.antt =====
-- The store on a database keeps the promise of a blob store (blobs/sql_blob_store.go).
use completer.Prelude.{
  ℕ, ◌≡◌, refl, sym, ap, ◌∙◌, ◌≢◌, ◌⊎◌, inl, inr, String, List, Option, none, some, length, arith,
  Option-cases,
}
use completer.Blobs.{Blob, found, blob_not_found, read_failed}
use completer.Blobs.Sql.{
  BlobsTable, BlobsTableLaws, QueryResult, sql_store, create, read, row, no_rows, query_failed,
}
use completer.Blobs.Contract.{IsBlobStore}

module _ {D : Type 0} (t : BlobsTable D) (laws : BlobsTableLaws t) where
  row_of_found :
      (p id : String) (d : D) (c : List ℕ)
      → read t p id d ≡ found c
      → t.select_blob_data id d ≡ row c
  unfolding read
  row_of_found p id d c e = by_result (t.select_blob_data id d) e
    where
      by_result :
          (q : QueryResult)
          → (elim q [ row b ↦ found b | no_rows ↦ blob_not_found | query_failed ↦ read_failed ])
            ≡ found c
          → q ≡ row c
      by_result (row b) h = cc
      by_result no_rows h = absurd (cc)
      by_result query_failed h = absurd (cc)

  found_of_row :
      (p id : String) (d : D) (c : List ℕ)
      → t.select_blob_data id d ≡ row c
      → read t p id d ≡ found c
  unfolding read
  found_of_row p id d c e = rw (e, read) refl

  -- The two ways that Create ends.
  create-cases :
      (prefix ty : String) (input : Option (List ℕ)) (d : D)
      → (create t prefix ty input d ≡ (none, d))
        ⊎ ((id : String) × (bytes : List ℕ) × (e : D) × (input ≡ some bytes)
            × (t.insert_blob prefix id bytes d ≡ some e)
            × (create t prefix ty input d
                ≡ (some (record { id = id; content_type = ty; length = length bytes }), e)))
  unfolding create
  create-cases prefix ty none d = elim (Option-cases (t.new_id d)) [
    | inl q ↦ inl (rw (q, create))
    | inr (id, q) ↦ inl (rw (q, create))
  ]
  create-cases prefix ty (some bytes) d = elim (Option-cases (t.new_id d)) [
    | inl q ↦ inl (rw (q, create))
    | inr (id, q) ↦ elim (Option-cases (t.insert_blob prefix id bytes d)) [
      | inl h ↦ inl (rw (q, h, create))
      | inr (e, h) ↦ inr (id, bytes, e, refl, h, rw (q, h, create))
    ]
  ]

  sql_creates :
      (prefix ty : String) (input : Option (List ℕ)) (d : D) (b : Blob)
      → (create t prefix ty input d).0 ≡ some b
      → (bytes : List ℕ) × (input ≡ some bytes)
        × (b.content_type ≡ ty)
        × (b.length ≡ length bytes)
        × ((p : String) (c : List ℕ) → read t p b.id d ≢ found c)
        × ((p : String) → read t p b.id (create t prefix ty input d).1 ≡ found bytes)
  sql_creates prefix ty input d b made = elim (create-cases prefix ty input d) [
    | inl h ↦ absurd (ground (arith, h, made))
    | inr (id, bytes, e, given, inserted, h) ↦
        let same : record { id = id; content_type = ty; length = length bytes } ≡ b =
          ground (arith, h, made) in
        (
          bytes,
          given,
          ap (λ (x : Blob). x.content_type) (sym same),
          ap (λ (x : Blob). x.length) (sym same),
          rw (← same) (λ p c q. absurd (
              ground
                (arith, laws.primary_key prefix id bytes c d (row_of_found p id d c q), inserted))),
          rw (← same, h)
              (λ p. found_of_row p id e bytes (laws.inserted prefix id bytes d e inserted)),
        )
  ]

  sql_preserves :
      (prefix ty : String) (input : Option (List ℕ)) (d : D) (p id : String) (c : List ℕ)
      → read t p id d ≡ found c
      → read t p id (create t prefix ty input d).1 ≡ found c
  sql_preserves prefix ty input d p id c q = elim (create-cases prefix ty input d) [
    | inl h ↦ rw h q
    | inr (new, bytes, e, given, inserted, h) ↦
        let held : t.select_blob_data id d ≡ row c = row_of_found p id d c q in
        let other : new ≢ id =
          λ same. ground (arith, same, laws.primary_key prefix id bytes c d held, inserted) in
        rw h (found_of_row p id e c (laws.others prefix new id bytes d e inserted other ∙ held))
  ]

  -- On a database that keeps the laws of a table with a primary key, Create returns a blob of the
  -- content's length and of the type given, under an ID that had no row, from which any prefix reads
  -- the bytes back; a blob that could be read before is read unchanged after any call of Create.
  pub sql_store-IsBlobStore : IsBlobStore (sql_store t) (λ d. Unit)
  unfolding sql_store
  sql_store-IsBlobStore = record {
    keeps = λ prefix ty input d v. tt;
    creates = λ prefix ty input d b v. sql_creates prefix ty input d b;
    preserves = λ prefix ty input d p id c v. sql_preserves prefix ty input d p id c;
  }
