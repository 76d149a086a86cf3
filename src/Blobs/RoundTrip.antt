-- ===== src/Blobs/RoundTrip.antt =====
-- A blob that was posted is served (blobs/blobapi.go), over any store that keeps its promise.
use completer.Prelude.{
  ℕ, ◌≡◌, refl, inl, inr, String, List, [], ◌∷◌, Option, some, arith, Bool-cases,
}
use text.Mathlib.Text.{◌==◌}
use completer.Blobs.{Blob, found, Store}
use completer.Blobs.Contract.{IsBlobStore}
use completer.Blobs.Api.{json, body, create_blob, get_blob}

-- A request to create a blob: its prefix, its content type and its body.
pub record Post : Type 0 where
  pub prefix : String
  pub content_type : String
  pub input : Option (List ℕ)

module _ {S : Type 0} (store : Store S) (IsValid : S → Type 0)
    (laws : IsBlobStore store IsValid) where
  -- Requests that are handled in turn.
  abbrev pub after_posts : List Post → S → S
  after_posts [] s = s
  after_posts (r ∷ rs) s = after_posts rs (create_blob store r.prefix r.content_type r.input s).1

  create_blob-IsValid :
      (r : Post) (s : S)
      → IsValid s
      → IsValid (create_blob store r.prefix r.content_type r.input s).1
  unfolding create_blob
  create_blob-IsValid r s v = elim (Bool-cases (r.content_type == "")) [
    | inl q ↦ rw q v
    | inr q ↦ rw q (laws.keeps r.prefix r.content_type r.input s v)
  ]

  create_blob-preserves :
      (r : Post) (s : S) (p id : String) (c : List ℕ)
      → IsValid s
      → store.read p id s ≡ found c
      → store.read p id (create_blob store r.prefix r.content_type r.input s).1 ≡ found c
  unfolding create_blob
  create_blob-preserves r s p id c v e = elim (Bool-cases (r.content_type == "")) [
    | inl q ↦ rw q e
    | inr q ↦ rw q (laws.preserves r.prefix r.content_type r.input s p id c v e)
  ]

  after_posts-preserves :
      (rs : List Post) (s : S) (p id : String) (c : List ℕ)
      → IsValid s
      → store.read p id s ≡ found c
      → store.read p id (after_posts rs s) ≡ found c
  after_posts-preserves [] s p id c v e = e
  after_posts-preserves (r ∷ rs) s p id c v e =
      after_posts-preserves rs (create_blob store r.prefix r.content_type r.input s).1 p id c
        (create_blob-IsValid r s v) (create_blob-preserves r s p id c v e)

  created :
      (r : Post) (s : S) (b : Blob)
      → IsValid s
      → (create_blob store r.prefix r.content_type r.input s).0 ≡ json 200 b
      → (bytes : List ℕ) × (r.input ≡ some bytes)
        × ((p : String)
            → store.read p b.id (create_blob store r.prefix r.content_type r.input s).1
              ≡ found bytes)
  unfolding create_blob
  created r s b v e = elim (Bool-cases (r.content_type == "")) [
    | inl q ↦ absurd (ground (arith, q, e))
    | inr q ↦
        let (bytes, given, type, length, free, read) =
          laws.creates r.prefix r.content_type r.input s b v (ground (arith, q, e)) in
        (bytes, given, rw q read)
  ]

  -- Over a store that keeps its promise: when a request to create a blob was answered with status
  -- 200 and the blob's ID, its body could be read, and a request for that ID, under any prefix, is
  -- answered with status 200 and that body, whatever further requests to create blobs came first.
  pub get_blob-create_blob :
      (r : Post) (s : S) (b : Blob) (rs : List Post)
      → IsValid s
      → (create_blob store r.prefix r.content_type r.input s).0 ≡ json 200 b
      → (bytes : List ℕ) × (r.input ≡ some bytes)
        × ((p : String)
            → get_blob store p b.id
                (after_posts rs (create_blob store r.prefix r.content_type r.input s).1)
              ≡ body 200 bytes)
  unfolding get_blob
  get_blob-create_blob r s b rs v e =
      let (bytes, given, read) = created r s b v e in
      (
        bytes,
        given,
        λ p.
            rw
              (
                after_posts-preserves rs _ p b.id bytes (create_blob-IsValid r s v) (read p),
                get_blob,
              )
              refl,
      )
