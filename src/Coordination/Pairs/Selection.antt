-- ===== src/Coordination/Pairs/Selection.antt =====
-- The TEE pair that a task of a region gets, and the counts of the pairs around it.
use aristo.Prelude.{
  ℕ, zero, suc, ◌+◌, ◌≤◌, ◌<◌, ◌≡◌, refl, [], ◌∷◌, List, Bool, true, false, Bytes, same, same_refl,
  same_iff, Option, none, some, ok, length, ltb, if◌then◌else◌, arith, All, map, inl, inr, ◌⊎◌, ap,
  ◌∙◌,
}
use aristo.Prelude.Dict
use aristo.Coordination.Types.{TeePairInfo}
use aristo.Coordination.State.{Coordinator}
use aristo.Coordination.Pairs.{
  max_int32, find_least, update_at, pairs_of, taken, released, on_pair, select_tee_pair,
  release_tee_pair,
}

abbrev pub task_counts : List TeePairInfo → List ℕ
task_counts pairs = map (λ (pair : TeePairInfo). pair.task_count) pairs

abbrev pub count_at : ℕ → List TeePairInfo → ℕ
count_at i [] = 0
count_at zero (pair ∷ pairs) = pair.task_count
count_at (suc i) (pair ∷ pairs) = count_at i pairs

abbrev AtLeast : ℕ → List TeePairInfo → Type 0
AtLeast n pairs = All (λ (pair : TeePairInfo). n ≤ pair.task_count) pairs

-- The pair at `i` is one of the region's, and none has fewer tasks.
pub record IsLeast (i : ℕ) (pairs : List TeePairInfo) : Type 0 where
  pub in_range : i < length pairs
  pub below_max : count_at i pairs < max_int32
  pub least : All (λ (pair : TeePairInfo). count_at i pairs ≤ pair.task_count) pairs

AtLeast-le : (m n : ℕ) (pairs : List TeePairInfo) → m ≤ n → AtLeast n pairs → AtLeast m pairs
AtLeast-le m n [] h a = tt
AtLeast-le m n (pair ∷ pairs) h (x, a) = (omega arith, AtLeast-le m n pairs h a)

record Found (min i j : ℕ) (pairs : List TeePairInfo) : Type 0 where
  at : ℕ
  index : j ≡ i + at
  inside : at < length pairs
  less : count_at at pairs < min
  best : AtLeast (count_at at pairs) pairs

Found-step :
    (min i j : ℕ) (selected : Option ℕ) (pair : TeePairInfo) (pairs : List TeePairInfo)
    (less : Bool)
    → ltb pair.task_count min ≡ less
    → ((if less then some i else selected) ≡ some j
        × AtLeast (if less then pair.task_count else min) pairs)
      ⊎ Found (if less then pair.task_count else min) (suc i) j pairs
    → (selected ≡ some j × AtLeast min (pair ∷ pairs)) ⊎ Found min i j (pair ∷ pairs)
Found-step min i j selected pair pairs true e (inl (s, a)) = inr (record {
  at = 0;
  index = ground arith;
  inside = omega arith;
  less = ground arith;
  best = (omega arith, a);
})
Found-step min i j selected pair pairs false e (inl (s, a)) = inl (s, (ground arith, a))
Found-step min i j selected pair pairs true e (inr f) = inr (record {
  at = suc f.at;
  index = omega (arith, f.index);
  inside = omega (arith, f.inside);
  less = ground (arith, f.less);
  best = (ground (arith, f.less), f.best);
})
Found-step min i j selected pair pairs false e (inr f) = inr (record {
  at = suc f.at;
  index = omega (arith, f.index);
  inside = omega (arith, f.inside);
  less = f.less;
  best = (ground (arith, f.less), f.best);
})

find_least-Found :
    (min i j : ℕ) (selected : Option ℕ) (pairs : List TeePairInfo)
    → find_least min selected i pairs ≡ some j
    → (selected ≡ some j × AtLeast min pairs) ⊎ Found min i j pairs
unfolding find_least
find_least-Found min i j selected [] e = inl (e, tt)
find_least-Found min i j selected (pair ∷ pairs) e =
    let less = ltb pair.task_count min in
    Found-step min i j selected pair pairs less refl (
      find_least-Found (if less then pair.task_count else min) (suc i) j
        (if less then some i else selected) pairs e)

Found-IsLeast :
    (j : ℕ) (pairs : List TeePairInfo)
    → (none ≡ some j × AtLeast max_int32 pairs) ⊎ Found max_int32 0 j pairs
    → IsLeast j pairs
Found-IsLeast j pairs (inl (e, a)) = absurd (ground arith)
Found-IsLeast j pairs (inr f) =
    let same_index : j ≡ f.at = omega (arith, f.index) in
    let same_count : count_at j pairs ≡ count_at f.at pairs =
      ap (λ i. count_at i pairs) same_index in
    record {
      in_range = omega (arith, same_index, f.inside);
      below_max = omega (arith, same_count, f.less);
      least =
          AtLeast-le (count_at j pairs) (count_at f.at pairs) pairs (omega (arith, same_count))
            f.best;
    }

task_counts-released :
    (now later i : ℕ) (pairs : List TeePairInfo)
    → task_counts (update_at (released later) i (update_at (taken now) i pairs)) ≡ task_counts pairs
unfolding update_at taken released
task_counts-released now later i [] = refl
task_counts-released now later zero (pair ∷ pairs) = ground arith
task_counts-released now later (suc i) (pair ∷ pairs) =
    ap (λ counts. pair.task_count ∷ counts) (task_counts-released now later i pairs)

pairs_of-insert :
    (region other : Bytes) (pairs : List TeePairInfo) (m : Dict.Dict (List TeePairInfo))
    → pairs_of other (Dict.insert region pairs m)
      ≡ (if same region other then pairs else pairs_of other m)
unfolding pairs_of
pairs_of-insert region other pairs m = ground (arith, Dict.lookup-insert region other pairs m)

module _ {S : Type 0} where
  pairs_of-on_pair :
      (f : TeePairInfo → TeePairInfo) (region other : Bytes) (i : ℕ) (c : Coordinator S)
      → pairs_of other (on_pair f region i c).tee_pairs ≡ (
          if same region other
          then update_at f i (pairs_of region c.tee_pairs)
          else pairs_of other c.tee_pairs)
  unfolding on_pair
  pairs_of-on_pair f region other i c =
      pairs_of-insert region other (update_at f i (pairs_of region c.tee_pairs)) c.tee_pairs

  counts-on_pair :
      (now later i : ℕ) (region other : Bytes) (c : Coordinator S)
      → task_counts (
          pairs_of other
            (on_pair (released later) region i (on_pair (taken now) region i c)).tee_pairs)
        ≡ task_counts (pairs_of other c.tee_pairs)
  counts-on_pair now later i region other c = ground (
    arith,
    same_iff region other,
    same_refl region,
    pairs_of-on_pair (taken now) region region i c,
    pairs_of-on_pair (taken now) region other i c,
    pairs_of-on_pair (released later) region other i (on_pair (taken now) region i c),
    task_counts-released now later i (pairs_of region c.tee_pairs),
  )

  select_tee_pair_state :
      (now i : ℕ) (region : Bytes) (c : Coordinator S)
      → (select_tee_pair now region c).0 ≡ ok i
      → (select_tee_pair now region c).1 ≡ on_pair (taken now) region i c
  unfolding select_tee_pair
  select_tee_pair_state now i region c e = ground arith

  -- The pair that is selected for a region is one of the region's pairs, and no other has fewer
  -- tasks.
  pub select_tee_pair-IsLeast :
      (now i : ℕ) (region : Bytes) (c : Coordinator S)
      → (select_tee_pair now region c).0 ≡ ok i
      → IsLeast i (pairs_of region c.tee_pairs)
  unfolding select_tee_pair
  select_tee_pair-IsLeast now i region c e =
      let pairs = pairs_of region c.tee_pairs in
      Found-IsLeast i pairs (find_least-Found max_int32 0 i none pairs (ground arith))

  -- When the pair that was selected for a region is released, the pairs of every region have the
  -- task counts that they had before the selection.
  pub release-select_tee_pair :
      (now later i : ℕ) (region other : Bytes) (c : Coordinator S)
      → (select_tee_pair now region c).0 ≡ ok i
      → task_counts (
          pairs_of other
            (release_tee_pair later region i (select_tee_pair now region c).1).tee_pairs)
        ≡ task_counts (pairs_of other c.tee_pairs)
  unfolding release_tee_pair
  release-select_tee_pair now later i region other c e =
      ap (λ d. task_counts (pairs_of other (on_pair (released later) region i d).tee_pairs))
        (select_tee_pair_state now i region c e)
      ∙ counts-on_pair now later i region other c
