-- ===== src/Coordination/RangeCache.antt =====
-- coordination/state/cache.go and range_proof.go: the cache of range proofs, by the root that they were
-- made at. `P` is merkledb's proof.
pub mod Bound
use aristo.Prelude.{
  ℕ, ◌+◌, [], ◌∷◌, ◌++◌, Bool, true, false, Bytes, Option, none, some, length, ltb, if◌then◌else◌,
}
use aristo.Prelude.Dict
use aristo.Prelude.Dict.{Dict}

pub record RangeProof (P : Type 0) : Type 0 where
  pub start_key : Bytes
  pub end_key : Bytes
  pub entries : Dict Bytes
  pub proof : P

pub record RangeCache (P : Type 0) : Type 0 where
  pub entries : Dict (Dict (RangeProof P))
  pub size : ℕ

unfoldable pub make_range_key : Bytes → Bytes → Bytes
make_range_key start end = start ++ 45 ∷ end

abbrev pub replaces : Option (Bytes × ℕ) → ℕ → Bool
replaces none n = true
replaces (some (root, least)) n = ltb n least

abbrev pub root_of : Option (Bytes × ℕ) → Option Bytes
root_of none = none
root_of (some (root, least)) = some root

module _ {P : Type 0} where
  -- The first root with the fewest proofs, beside the least so far.
  unfoldable pub least_root : Option (Bytes × ℕ) → Dict (Dict (RangeProof P)) → Option (Bytes × ℕ)
  least_root least [] = least
  least_root least ((root, cache) ∷ m) =
      least_root (if replaces least (length cache) then some (root, length cache) else least) m

  unfoldable pub evict_least_used : RangeCache P → RangeCache P
  unfolding least_root
  evict_least_used c = elim (root_of (least_root none c.entries)) [
    | none ↦ c
    | some root ↦ record c { entries = Dict.remove root c.entries }
  ]

  unfoldable pub cache_at : Bytes → RangeCache P → Dict (RangeProof P)
  cache_at root c = elim (Dict.lookup root c.entries) [ none ↦ [] | some cache ↦ cache ]

  unfoldable pub get : Bytes → Bytes → Bytes → RangeCache P → Option (RangeProof P)
  unfolding make_range_key cache_at
  get start end root c = Dict.lookup (make_range_key start end) (cache_at root c)

  unfoldable pub with_proof : RangeProof P → Bytes → RangeCache P → RangeCache P
  unfolding make_range_key cache_at
  with_proof proof root c = record c {
    entries =
        Dict.insert root
          (Dict.insert (make_range_key proof.start_key proof.end_key) proof (cache_at root c))
          c.entries;
  }

  unfoldable pub put : RangeProof P → Bytes → RangeCache P → RangeCache P
  unfolding with_proof evict_least_used
  put proof root c =
      let c' = with_proof proof root c in
      if ltb c'.size (length c'.entries) then evict_least_used c' else c'

unfoldable pub new_range_cache : {P : Type 0} → ℕ → RangeCache P
new_range_cache size = record { entries = []; size = size }
