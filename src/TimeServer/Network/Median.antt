-- ===== src/TimeServer/Network/Median.antt =====
-- The median of the collected times withstands a minority of wrong clocks.
use aristo.Prelude.{
  ℕ, zero, suc, ◌+◌, ◌*◌, ◌/◌, ◌≤◌, ◌<◌, ◌≡◌, refl, [], ◌∷◌, List, Bool, ◌||◌, ok, length,
  length-map, get_or, map, ltb, arith, All, Bool-cases, inl, inr, ltb→lt,
}
use aristo.TimeServer.Server.{VerificationResponse}
use aristo.TimeServer.Network.{TimeNetwork, VerifiedTimestamp, create_verified_timestamp, time_of}
use aristo.TimeServer.Network.Sorting.{
  sort, count, IsSorted, sort-IsSorted, count-sort, length-sort,
}

-- The times outside a window.
abbrev pub outside : ℕ → ℕ → ℕ → Bool
outside lo hi t = ltb t lo || ltb hi t

count-All :
    (hi t : ℕ) (ts : List ℕ) → hi < t → All (λ u. t ≤ u) ts → count (λ u. ltb hi u) ts ≡ length ts
count-All hi t [] h a = refl
count-All hi t (u ∷ us) h a = ground (arith, count-All hi t us h a.1)

count_above :
    (hi k : ℕ) (ts : List ℕ)
    → IsSorted ts
    → k < length ts
    → hi < get_or ts k 0
    → length ts ≤ k + count (λ u. ltb hi u) ts
count_above hi k [] s h a = absurd (omega arith)
count_above hi zero (t ∷ ts) s h a = ground (arith, count-All hi t ts a s.0)
count_above hi (suc k) (t ∷ ts) s h a = ground (arith, count_above hi k ts s.1)

get_or_bound : (t k : ℕ) (ts : List ℕ) → All (λ u. t ≤ u) ts → k < length ts → t ≤ get_or ts k 0
get_or_bound t k [] a h = absurd (omega arith)
get_or_bound t zero (u ∷ us) a h = a.0
get_or_bound t (suc k) (u ∷ us) a h = get_or_bound t k us a.1 (omega arith)

count_below :
    (lo k : ℕ) (ts : List ℕ)
    → IsSorted ts
    → k < length ts
    → get_or ts k 0 < lo
    → suc k ≤ count (λ u. ltb u lo) ts
count_below lo k [] s h a = absurd (omega arith)
count_below lo zero (t ∷ ts) s h a = ground arith
count_below lo (suc k) (t ∷ ts) s h a =
    ground (arith, count_below lo k ts s.1, get_or_bound t k ts s.0)

count-outside :
    (lo hi : ℕ) (ts : List ℕ)
    → (count (λ u. ltb u lo) ts ≤ count (outside lo hi) ts)
      × (count (λ u. ltb hi u) ts ≤ count (outside lo hi) ts)
count-outside lo hi [] = omega arith
count-outside lo hi (t ∷ ts) = ground (arith, count-outside lo hi ts)

module _ (lo hi : ℕ) (ts : List ℕ) (minority : 2 * count (outside lo hi) ts < length ts) where
  abbrev median : ℕ
  median = get_or (sort ts) (length (sort ts) / 2) 0

  median-ge : lo ≤ median
  median-ge = elim (Bool-cases (ltb median lo)) [
    | inl low ↦ absurd (
        omega (
          arith,
          count_below lo (length (sort ts) / 2) (sort ts) (sort-IsSorted ts)
              (omega (arith, length-sort ts)) (ltb→lt _ _ low),
          count-sort (λ u. ltb u lo) ts,
          (count-outside lo hi ts).0,
          length-sort ts,
        ))
    | inr fine ↦ ground arith
  ]

  median-le : median ≤ hi
  median-le = elim (Bool-cases (ltb hi median)) [
    | inl high ↦ absurd (
        omega (
          arith,
          count_above hi (length (sort ts) / 2) (sort ts) (sort-IsSorted ts)
              (omega (arith, length-sort ts)) (ltb→lt _ _ high),
          count-sort (λ u. ltb hi u) ts,
          (count-outside lo hi ts).1,
          length-sort ts,
        ))
    | inr fine ↦ ground arith
  ]

  pub median_between : (lo ≤ median) × (median ≤ hi)
  median_between = (median-ge, median-le)

-- Where fewer than half of the responses have a time outside a window, the time of the timestamp
-- made from them lies within it.
pub create_verified_timestamp-majority :
    (tn : TimeNetwork) (responses : List VerificationResponse) (v : VerifiedTimestamp) (lo hi : ℕ)
    → create_verified_timestamp tn responses ≡ ok v
    → 2 * count (outside lo hi) (map time_of responses) < length responses
    → (lo ≤ v.time) × (v.time ≤ hi)
unfolding create_verified_timestamp
create_verified_timestamp-majority tn [] v lo hi e minority = absurd (omega arith)
create_verified_timestamp-majority tn (r ∷ rs) v lo hi e minority =
    ground
      (arith, median_between lo hi (map time_of (r ∷ rs)) (omega (arith, length-map rs time_of)))
