-- ===== src/Blobs/InMemory.antt =====
-- The store that keeps blobs in memory (blobs/inmem_blob_store.go). The mutex makes each call atomic.
use completer.Prelude.{
  ℕ, suc, String, List, [], ◌∷◌, Option, none, some, itoa, length, if◌then◌else◌,
}
use text.Mathlib.Text.{◌==◌}
use completer.Blobs.{Blob, Fetched, found, blob_not_found, Store}

pub record InMemBlobStore : Type 0 where
  pub blobs : List (String × List ℕ)
  pub count : ℕ

abbrev pub new_in_mem_blob_store : InMemBlobStore
new_in_mem_blob_store = record { blobs = []; count = 0 }

-- `s.blobs[id]`
unfoldable pub lookup : String → List (String × List ℕ) → Option (List ℕ)
lookup id [] = none
lookup id ((k, b) ∷ rest) = if k == id then some b else lookup id rest

-- `s.blobs[id] = …`
unfoldable pub insert : String → List ℕ → List (String × List ℕ) → List (String × List ℕ)
insert id b [] = (id, b) ∷ []
insert id b ((k, c) ∷ rest) = if k == id then (id, b) ∷ rest else (k, c) ∷ insert id b rest

unfoldable pub read : (flow_id blob_id : String) → InMemBlobStore → Fetched
unfolding lookup
read flow_id blob_id s = elim (lookup blob_id s.blobs) [ none ↦ blob_not_found | some b ↦ found b ]

-- The count is taken also where the reader fails.
unfoldable pub create :
    (flow_id content_type : String)
    → Option (List ℕ)
    → InMemBlobStore
    → Option Blob × InMemBlobStore
unfolding insert
create flow_id content_type none s = (none, record s { count = suc s.count })
create flow_id content_type (some bytes) s = (
  some (record { id = itoa s.count; content_type = content_type; length = length bytes }),
  record { blobs = insert (itoa s.count) bytes s.blobs; count = suc s.count },
)

unfoldable pub in_mem_store : Store InMemBlobStore
unfolding read create
in_mem_store = record { read = read; create = create }
