-- ===== src/Blobs/Api.antt =====
-- The handlers of the blob API (blobs/blobapi.go). Each gives the response's status with what it
-- writes; the failure to write a response to the client is not modelled.
use completer.Prelude.{ℕ, String, List, Option, none, some, if◌then◌else◌}
use text.Mathlib.Text.{◌==◌}
use completer.Blobs.{Blob, found, blob_not_found, read_failed, Store}

pub data Response : Type 0 where
  json : ℕ → Blob → Response
  body : ℕ → List ℕ → Response
  abort : ℕ → Response

module _ {S : Type 0} (store : Store S) where
  unfoldable pub create_blob : (prefix content_type : String) → Option (List ℕ) → S → Response × S
  create_blob prefix content_type request_body s =
      if content_type == ""
      then (abort 400, s)
      else (let (blob, t) = store.create prefix content_type request_body s in
          (elim blob [ none ↦ abort 500 | some b ↦ json 200 b ], t))

  unfoldable pub get_blob : (prefix blob_id : String) → S → Response
  get_blob prefix blob_id s = elim (store.read prefix blob_id s) [
    | found b ↦ body 200 b
    | blob_not_found ↦ abort 404
    | read_failed ↦ abort 500
  ]
