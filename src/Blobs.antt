-- ===== src/Blobs.antt =====
-- The blob stores (blobs/blobs.go, blobs/inmem_blob_store.go, blobs/sql_blob_store.go) and the
-- handlers of the blob API (blobs/blobapi.go). An io.Reader is what reading it to the end gives: its
-- bytes, or `none` for an error.
pub mod InMemory
pub mod Sql
pub mod Api
pub mod Contract
pub mod SqlContract
pub mod RoundTrip
pub mod Examples
use completer.Prelude.{ℕ, String, List, Option}
use completer.Model.Datum.{BlobDatum}

pub record Blob : Type 0 where
  pub id : String
  pub content_type : String
  pub length : ℕ

-- BlobDatumFromBlobStoreBlob
unfoldable pub blob_datum_from_blob_store_blob : Blob → BlobDatum
blob_datum_from_blob_store_blob b = record {
  blob_id = b.id;
  content_type = b.content_type;
  length = b.length;
}

-- The results of Read: ErrBlobNotFound is told apart from the other errors.
pub data Fetched : Type 0 where
  found : List ℕ → Fetched
  blob_not_found : Fetched
  read_failed : Fetched

-- The interface Store, on a state `S`. `none` is an error of Create, which may leave the state
-- changed.
pub record Store (S : Type 0) : Type 0 where
  pub read : (prefix blob_id : String) → S → Fetched
  pub create : (prefix content_type : String) → Option (List ℕ) → S → Option Blob × S
