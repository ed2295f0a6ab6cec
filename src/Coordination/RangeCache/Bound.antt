-- ===== src/Coordination/RangeCache/Bound.antt =====
-- The cache keeps to its size, and which ranges it takes for the same.
use mathlib.Core.List.{append_assoc}
use aristo.Prelude.{
  ℕ, ◌+◌, ◌≤◌, ◌<◌, ◌≡◌, refl, [], ◌∷◌, ◌++◌, List, Bytes, same_refl, Option, none, some, length,
  ltb, arith, ◌⊎◌, inl, inr, Bool-cases,
}
use aristo.Prelude.Dict
use aristo.Prelude.Dict.{Dict}
use aristo.Coordination.RangeCache.{
  RangeProof, RangeCache, make_range_key, root_of, least_root, evict_least_used, cache_at, get,
  with_proof, put, new_range_cache,
}

module _ {P : Type 0} where
  length-remove-lt :
      (k : Bytes) (m : Dict (Dict (RangeProof P))) (least : Option (Bytes × ℕ))
      → root_of (least_root least m) ≡ some k
      → (root_of least ≡ some k) ⊎ (length (Dict.remove k m) < length m)
  unfolding least_root Dict.remove
  length-remove-lt k [] least e = inl e
  length-remove-lt k ((root, cache) ∷ m) none e = ground (
    arith,
    same_refl root,
    Dict.length-remove-le k m,
    length-remove-lt k m (some (root, length cache)) e,
  )
  length-remove-lt k ((root, cache) ∷ m) (some (r, n)) e = ground (
    arith,
    same_refl root,
    Dict.length-remove-le k m,
    length-remove-lt k m (some (r, n)),
    length-remove-lt k m (some (root, length cache)),
  )

  least_root-some :
      (m : Dict (Dict (RangeProof P))) (r : Bytes) (n : ℕ)
      → (k : Bytes) × (root_of (least_root (some (r, n)) m) ≡ some k)
  unfolding least_root
  least_root-some [] r n = (r, refl)
  least_root-some ((root, cache) ∷ m) r n = elim (Bool-cases (ltb (length cache) n)) [
    | inl less ↦ let (k, e) = least_root-some m root (length cache) in (k, ground arith)
    | inr more ↦ let (k, e) = least_root-some m r n in (k, ground arith)
  ]

  first_root :
      (m : Dict (Dict (RangeProof P)))
      → 0 < length m
      → (k : Bytes) × (root_of (least_root none m) ≡ some k)
  unfolding least_root
  first_root [] h = absurd (omega arith)
  first_root ((root, cache) ∷ m) h = least_root-some m root (length cache)

  evict_least_used-lt :
      (c : RangeCache P)
      → 0 < length c.entries
      → length (evict_least_used c).entries < length c.entries
  unfolding evict_least_used
  evict_least_used-lt c h =
      let (k, e) = first_root c.entries h in ground (arith, e, length-remove-lt k c.entries none e)

  with_proof-length :
      (proof : RangeProof P) (root : Bytes) (c : RangeCache P)
      → length (with_proof proof root c).entries ≤ length c.entries + 1
  unfolding with_proof
  with_proof-length proof root c =
      let k = make_range_key proof.start_key proof.end_key in
      ground (arith, Dict.length-insert root (Dict.insert k proof (cache_at root c)) c.entries)

  pub record IsWithin (size : ℕ) (c : RangeCache P) : Type 0 where
    pub same_size : c.size ≡ size
    pub fits : length c.entries ≤ size

  with_proof-size :
      (proof : RangeProof P) (root : Bytes) (c : RangeCache P)
      → (with_proof proof root c).size ≡ c.size
  unfolding with_proof
  with_proof-size proof root c = refl

  evict-size : (c : RangeCache P) → (evict_least_used c).size ≡ c.size
  unfolding evict_least_used
  evict-size c = ground arith

  put-IsWithin :
      (proof : RangeProof P) (root : Bytes) (size : ℕ) (c : RangeCache P)
      → IsWithin size c
      → IsWithin size (put proof root c)
  unfolding put
  put-IsWithin proof root size c h =
      let c' = with_proof proof root c in
      record {
        same_size = ground (arith, h.same_size, with_proof-size proof root c, evict-size c');
        fits = ground (
          arith,
          h.same_size,
          h.fits,
          with_proof-size proof root c,
          with_proof-length proof root c,
          evict_least_used-lt c',
        );
      }

  unfoldable pub put_all : List (RangeProof P × Bytes) → RangeCache P → RangeCache P
  unfolding put
  put_all [] c = c
  put_all ((proof, root) ∷ rest) c = put_all rest (put proof root c)

  put_all_keeps :
      (puts : List (RangeProof P × Bytes)) (size : ℕ) (c : RangeCache P)
      → IsWithin size c
      → IsWithin size (put_all puts c)
  unfolding put_all
  put_all_keeps [] size c h = h
  put_all_keeps ((proof, root) ∷ rest) size c h =
      put_all_keeps rest size (put proof root c) (put-IsWithin proof root size c h)

  -- Whatever proofs are put into a new cache, it never holds proofs for more roots than its
  -- size.
  pub put_all-IsWithin :
      (puts : List (RangeProof P × Bytes)) (size : ℕ)
      → IsWithin size (put_all puts (new_range_cache size))
  unfolding new_range_cache
  put_all-IsWithin puts size =
      put_all_keeps puts size (new_range_cache size)
        (record { same_size = refl; fits = omega arith })

  get-with_proof :
      (proof : RangeProof P) (start end root : Bytes) (c : RangeCache P)
      → make_range_key proof.start_key proof.end_key ≡ make_range_key start end
      → get start end root (with_proof proof root c) ≡ some proof
  unfolding get with_proof cache_at
  get-with_proof proof start end root c e = ground (
    arith,
    same_refl root,
    same_refl (make_range_key start end),
    e,
    Dict.lookup-insert root root
        (Dict.insert (make_range_key proof.start_key proof.end_key) proof (cache_at root c))
        c.entries,
    Dict.lookup-insert (make_range_key proof.start_key proof.end_key) (make_range_key start end)
        proof (cache_at root c),
  )

range_keys_meet : (a b c : Bytes) → make_range_key (a ++ 45 ∷ b) c ≡ make_range_key a (b ++ 45 ∷ c)
unfolding make_range_key
range_keys_meet a b c = append_assoc a (45 ∷ b) (45 ∷ c)

-- After a proof is put into a cache that is not full, whose range starts at two parts with a
-- dash between them, the cache gives this proof for the range that starts at the first part and
-- ends at the second part, a dash and the proof's end.
pub get-put_other_range :
    {P : Type 0} (proof : RangeProof P) (a b d root : Bytes) (c : RangeCache P)
    → proof.start_key ≡ a ++ 45 ∷ b
    → proof.end_key ≡ d
    → length c.entries < c.size
    → get a (b ++ 45 ∷ d) root (put proof root c) ≡ some proof
unfolding put
get-put_other_range proof a b d root c s e h =
    let key : make_range_key proof.start_key proof.end_key ≡ make_range_key a (b ++ 45 ∷ d) =
      ground (arith, s, e, range_keys_meet a b d) in
    ground (
      arith,
      with_proof-length proof root c,
      with_proof-size proof root c,
      get-with_proof proof a (b ++ 45 ∷ d) root c key,
    )
