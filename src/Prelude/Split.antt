-- ===== src/Prelude/Split.antt =====
-- `bytes.Split(key, "/")`, `bytes.SplitN(key, "/", n)`, `bytes.HasPrefix` and the decimal digits
-- that `%d` prints for a byte.
use Prim.Native.Nat.{ℕ, zero, suc, ◌+◌, ◌/◌, ◌%◌}
use mathlib.Core.Path.{◌≡◌, refl}
use mathlib.Core.Bool.{Bool, true, false, ◌&&◌, ◌||◌}
use mathlib.Core.List.{List, [], ◌∷◌, ◌++◌}
use native.Mathlib.Omega.{arith}
use aristo.Prelude.Tests.{ltb, ◌==◌, if◌then◌else◌}
use aristo.Prelude.Text.{Bytes}

abbrev pub slash : ℕ
slash = 47

abbrev pub has_slash : Bytes → Bool
has_slash [] = false
has_slash (c ∷ cs) = c == slash || has_slash cs

-- Puts a byte in front of the first part.
abbrev pub extend_first : ℕ → List Bytes → List Bytes
extend_first c [] = (c ∷ []) ∷ []
extend_first c (w ∷ ws) = (c ∷ w) ∷ ws

unfoldable pub split : Bytes → List Bytes
split [] = [] ∷ []
split (c ∷ cs) = let rest = split cs in if c == slash then [] ∷ rest else extend_first c rest

-- At most `suc n` parts; the last one is the unsplit rest.
unfoldable pub split_n : ℕ → Bytes → List Bytes
split_n zero cs = cs ∷ []
split_n (suc n) [] = [] ∷ []
split_n (suc n) (c ∷ cs) =
    let after = split_n n cs in
    let within = split_n (suc n) cs in if c == slash then [] ∷ after else extend_first c within

unfoldable pub has_prefix : Bytes → Bytes → Bool
has_prefix key [] = true
has_prefix [] (p ∷ ps) = false
has_prefix (c ∷ cs) (p ∷ ps) = c == p && has_prefix cs ps

unfoldable pub decimal : ℕ → Bytes
decimal p =
    if ltb p 10
    then (48 + p) ∷ []
    else if ltb p 100
    then (48 + p / 10) ∷ (48 + p % 10) ∷ []
    else (48 + p / 100) ∷ (48 + p / 10 % 10) ∷ (48 + p % 10) ∷ []

-- A part without a slash is split off whole.
pub split-append :
    (w rest : Bytes) → has_slash w ≡ false → split (w ++ slash ∷ rest) ≡ w ∷ split rest
unfolding split
split-append [] rest h = refl
split-append (c ∷ cs) rest h = ground (arith, split-append cs rest)

pub split_whole : (w : Bytes) → has_slash w ≡ false → split w ≡ w ∷ []
unfolding split
split_whole [] h = refl
split_whole (c ∷ cs) h = ground (arith, split_whole cs)

pub split_n-append :
    (n : ℕ) (w rest : Bytes)
    → has_slash w ≡ false
    → split_n (suc n) (w ++ slash ∷ rest) ≡ w ∷ split_n n rest
unfolding split_n
split_n-append n [] rest h = refl
split_n-append n (c ∷ cs) rest h = ground (arith, split_n-append n cs rest)

pub split_n_whole : (n : ℕ) (w : Bytes) → has_slash w ≡ false → split_n n w ≡ w ∷ []
unfolding split_n
split_n_whole zero w h = refl
split_n_whole (suc n) [] h = refl
split_n_whole (suc n) (c ∷ cs) h = ground (arith, split_n_whole (suc n) cs)
