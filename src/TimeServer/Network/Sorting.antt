-- ===== src/TimeServer/Network/Sorting.antt =====
-- `sort.Slice` by time, as an insertion sort: it orders the times and keeps each of them.
use aristo.Prelude.{
  ℕ, suc, ◌+◌, ◌≤◌, ◌≡◌, refl, [], ◌∷◌, List, Bool, length, leb, arith, if◌then◌else◌, All,
}

unfoldable pub put_in_order : ℕ → List ℕ → List ℕ
put_in_order t [] = t ∷ []
put_in_order t (u ∷ us) = let rest = put_in_order t us in if leb t u then t ∷ u ∷ us else u ∷ rest

unfoldable pub sort : List ℕ → List ℕ
unfolding put_in_order
sort [] = []
sort (t ∷ ts) = put_in_order t (sort ts)

-- How many times pass a test.
abbrev pub count : (ℕ → Bool) → List ℕ → ℕ
count p [] = 0
count p (t ∷ ts) = (if p t then 1 else 0) + count p ts

-- Each time is at most the next one.
abbrev pub IsSorted : List ℕ → Type 0
IsSorted [] = Unit
IsSorted (t ∷ ts) = All (λ u. t ≤ u) ts × IsSorted ts

count-put_in_order :
    (p : ℕ → Bool) (t : ℕ) (ts : List ℕ)
    → count p (put_in_order t ts) ≡ (if p t then 1 else 0) + count p ts
unfolding put_in_order
count-put_in_order p t [] = refl
count-put_in_order p t (u ∷ us) = ground (arith, count-put_in_order p t us)

pub count-sort : (p : ℕ → Bool) (ts : List ℕ) → count p (sort ts) ≡ count p ts
unfolding sort
count-sort p [] = refl
count-sort p (t ∷ ts) = omega (arith, count-put_in_order p t (sort ts), count-sort p ts)

length-put_in_order : (t : ℕ) (ts : List ℕ) → length (put_in_order t ts) ≡ suc (length ts)
unfolding put_in_order
length-put_in_order t [] = refl
length-put_in_order t (u ∷ us) = ground (arith, length-put_in_order t us)

pub length-sort : (ts : List ℕ) → length (sort ts) ≡ length ts
unfolding sort
length-sort [] = refl
length-sort (t ∷ ts) = omega (arith, length-put_in_order t (sort ts), length-sort ts)

All-put_in_order :
    (m t : ℕ) (ts : List ℕ) → m ≤ t → All (λ u. m ≤ u) ts → All (λ u. m ≤ u) (put_in_order t ts)
unfolding put_in_order
All-put_in_order m t [] h k = (h, tt)
All-put_in_order m t (u ∷ us) h k = ground (arith, All-put_in_order m t us h k.1)

All-mono : (m n : ℕ) (ts : List ℕ) → m ≤ n → All (λ u. n ≤ u) ts → All (λ u. m ≤ u) ts
All-mono m n [] h k = tt
All-mono m n (t ∷ ts) h k = (omega arith, All-mono m n ts h k.1)

put_in_order-IsSorted : (t : ℕ) (ts : List ℕ) → IsSorted ts → IsSorted (put_in_order t ts)
unfolding put_in_order
put_in_order-IsSorted t [] s = (tt, tt)
put_in_order-IsSorted t (u ∷ us) s =
    ground (arith, put_in_order-IsSorted t us s.1, All-put_in_order u t us, All-mono t u us)

pub sort-IsSorted : (ts : List ℕ) → IsSorted (sort ts)
unfolding sort
sort-IsSorted [] = tt
sort-IsSorted (t ∷ ts) = put_in_order-IsSorted t (sort ts) (sort-IsSorted ts)
