-- ===== src/Blobs/Contract.antt =====
-- What a blob store promises, and that both stores keep the promise.
use completer.Prelude.{
  ℕ, suc, ◌≤◌, ◌≡◌, refl, sym, ap, ◌≢◌, ◌↔◌, inl, inr, String, List, [], ◌∷◌, Option, none, some,
  false, itoa, itoa-injective, length, if◌then◌else◌, arith, Bool-cases, Option-cases,
}
use text.Mathlib.Text.{◌==◌}
use text.Mathlib.TextEquality.{eq_iff}
use text.Mathlib.TextPositions.{eq_refl}
use completer.Blobs.{Blob, found, Store}
use completer.Blobs.InMemory.{InMemBlobStore, lookup, insert, read, create, in_mem_store}

-- A blob that Create returned has the content's type and length, is read back under its ID, whatever
-- the prefix, and no other blob changes; and its ID was free. An invariant may be needed.
pub record IsBlobStore {S : Type 0} (store : Store S) (IsValid : S → Type 0) : Type 0 where
  pub keeps :
      (prefix content_type : String) (input : Option (List ℕ)) (s : S)
      → IsValid s
      → IsValid (store.create prefix content_type input s).1
  pub creates :
      (prefix content_type : String) (input : Option (List ℕ)) (s : S) (b : Blob)
      → IsValid s
      → (store.create prefix content_type input s).0 ≡ some b
      → (bytes : List ℕ) × (input ≡ some bytes)
        × (b.content_type ≡ content_type)
        × (b.length ≡ length bytes)
        × ((p : String) (c : List ℕ) → store.read p b.id s ≢ found c)
        × ((p : String)
            → store.read p b.id (store.create prefix content_type input s).1 ≡ found bytes)
  pub preserves :
      (prefix content_type : String) (input : Option (List ℕ)) (s : S) (p id : String) (c : List ℕ)
      → IsValid s
      → store.read p id s ≡ found c
      → store.read p id (store.create prefix content_type input s).1 ≡ found c

lookup-insert :
    (k j : String) (b : List ℕ) (m : List (String × List ℕ))
    → lookup j (insert k b m) ≡ (if k == j then some b else lookup j m)
unfolding lookup insert
lookup-insert k j b [] = refl
lookup-insert k j b ((i, c) ∷ m) =
    ground (arith, eq_iff k j, eq_iff i k, eq_iff i j, lookup-insert k j b m)

ne-==_false : (a b : String) → a ≢ b → (a == b) ≡ false
ne-==_false a b h = elim (Bool-cases (a == b)) [ inl q ↦ absurd (h ((eq_iff a b).0 q)) | inr q ↦ q ]

-- The IDs from the count on are free.
abbrev pub IsFresh : InMemBlobStore → Type 0
IsFresh s = (i : ℕ) → s.count ≤ i → lookup (itoa i) s.blobs ≡ none

fresh_after :
    (s : InMemBlobStore) (bytes : List ℕ)
    → IsFresh s
    → (i : ℕ) → suc s.count ≤ i
    → lookup (itoa i) (insert (itoa s.count) bytes s.blobs) ≡ none
fresh_after s bytes f i h =
    let other : itoa s.count ≢ itoa i = λ e. omega (arith, itoa-injective s.count i e, h) in
    rw (lookup-insert (itoa s.count) (itoa i) bytes s.blobs, ne-==_false _ _ other)
      (f i (omega (arith, h)))

-- A blob that is read in memory is not at a fresh ID.
kept :
    (s : InMemBlobStore) (bytes c : List ℕ) (id : String)
    → IsFresh s
    → lookup id s.blobs ≡ some c
    → lookup id (insert (itoa s.count) bytes s.blobs) ≡ some c
kept s bytes c id f e =
    let other : itoa s.count ≢ id = λ q. ground (arith, f s.count (omega arith), e, q) in
    rw (lookup-insert (itoa s.count) id bytes s.blobs, ne-==_false _ _ other) e

create-IsFresh :
    (prefix ty : String) (input : Option (List ℕ)) (s : InMemBlobStore)
    → IsFresh s
    → IsFresh (create prefix ty input s).1
unfolding create
create-IsFresh prefix ty none s f i h = f i (omega (arith, h))
create-IsFresh prefix ty (some bytes) s f i h = fresh_after s bytes f i h

not_found :
    (id : String) (s : InMemBlobStore) (c : List ℕ) (p : String)
    → lookup id s.blobs ≡ none
    → read p id s ≢ found c
unfolding read
not_found id s c p e q = ground (arith, e, q)

read-of_lookup :
    (id : String) (s : InMemBlobStore) (c : List ℕ) (p : String)
    → (read p id s ≡ found c) ↔ (lookup id s.blobs ≡ some c)
unfolding read
read-of_lookup id s c p = elim (Option-cases (lookup id s.blobs)) [
  | inl e ↦ (λ q. ground (arith, e, q), λ q. ground (arith, e, q))
  | inr (b, e) ↦ (λ q. ground (arith, e, q), λ q. ground (arith, e, q))
]

create_creates :
    (prefix ty : String) (input : Option (List ℕ)) (s : InMemBlobStore) (b : Blob)
    → IsFresh s
    → (create prefix ty input s).0 ≡ some b
    → (bytes : List ℕ) × (input ≡ some bytes)
      × (b.content_type ≡ ty)
      × (b.length ≡ length bytes)
      × ((p : String) (c : List ℕ) → read p b.id s ≢ found c)
      × ((p : String) → read p b.id (create prefix ty input s).1 ≡ found bytes)
unfolding create
create_creates prefix ty none s b f e = absurd (cc)
create_creates prefix ty (some bytes) s b f e =
    let same : record { id = itoa s.count; content_type = ty; length = length bytes } ≡ b = cc in
    (
      bytes,
      refl,
      ap (λ (x : Blob). x.content_type) (sym same),
      ap (λ (x : Blob). x.length) (sym same),
      rw (← same) (λ p c. not_found (itoa s.count) s c p (f s.count (omega arith))),
      rw (← same) (λ p.
          (read-of_lookup (itoa s.count) (create prefix ty (some bytes) s).1 bytes p).1 (
            rw (lookup-insert (itoa s.count) (itoa s.count) bytes s.blobs, eq_refl (itoa s.count))
              refl)),
    )

create_preserves :
    (prefix ty : String) (input : Option (List ℕ)) (s : InMemBlobStore) (p id : String) (c : List ℕ)
    → IsFresh s
    → read p id s ≡ found c
    → read p id (create prefix ty input s).1 ≡ found c
unfolding create
create_preserves prefix ty none s p id c f e =
    (read-of_lookup id (record s { count = suc s.count }) c p).1 ((read-of_lookup id s c p).0 e)
create_preserves prefix ty (some bytes) s p id c f e =
    (read-of_lookup id (create prefix ty (some bytes) s).1 c p).1
      (kept s bytes c id f ((read-of_lookup id s c p).0 e))

-- In the store that keeps blobs in memory, where the IDs from the count on are free, Create with a
-- reader that gives some bytes returns a blob of their length and the type given, under an ID that
-- was free, from which any prefix reads the bytes back; a blob that could be read before is read
-- unchanged after any call of Create, and the IDs from the new count on are free.
pub in_mem_store-IsBlobStore : IsBlobStore in_mem_store IsFresh
unfolding in_mem_store
in_mem_store-IsBlobStore = record {
  keeps = create-IsFresh;
  creates = create_creates;
  preserves = create_preserves;
}
