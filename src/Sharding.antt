-- ===== src/Sharding.antt =====
-- Which shard a flow belongs to (sharding/sharding.go). `parse` stands for uuid.Parse, which gives
-- the sixteen bytes of a UUID or an error. The number of shards is a setting, and is not zero.
use Prim.Native.Nat.{bit_xor}
use completer.Prelude.{ℕ, ◌+◌, ◌*◌, ◌%◌, ◌<◌, ◌≡◌, String, List, [], ◌∷◌, Option, none, some, arith}

-- binary.BigEndian.Uint64 of eight bytes, as a left fold.
unfoldable pub big_endian : ℕ → List ℕ → ℕ
big_endian acc [] = acc
big_endian acc (b ∷ bs) = big_endian (acc * 256 + b) bs

-- The two halves of a UUID: bytes 0 to 7, and 8 to 15.
pub record Uuid : Type 0 where
  pub first : List ℕ
  pub last : List ℕ

module _ (parse : String → Option Uuid) (shard_count : ℕ) where
  -- `none` is the error of uuid.Parse.
  unfoldable pub shard_id : String → Option ℕ
  unfolding big_endian
  shard_id flow_id = elim (parse flow_id) [
    | none ↦ none
    | some u ↦ some (bit_xor (big_endian 0 u.first) (big_endian 0 u.last) % shard_count)
  ]

  -- The shard of a flow is one of the shards.
  pub shard_id-lt :
      (flow_id : String) (s : ℕ) → 0 < shard_count → shard_id flow_id ≡ some s → s < shard_count
  unfolding shard_id
  shard_id-lt flow_id s h e = ground arith
