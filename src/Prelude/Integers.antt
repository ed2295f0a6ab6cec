-- ===== src/Prelude/Integers.antt =====
-- Go's signed integers, over the native numbers.
use Prim.Native.Nat.{ℕ, zero, suc, ◌+◌, ◌-◌}
use mathlib.Core.Bool.{Bool, true, false}
use aristo.Prelude.Tests.{ltb, leb, ◌==◌, if◌then◌else◌}

pub data ℤ : Type 0 where
  pos : ℕ → ℤ
  negsuc : ℕ → ℤ

-- 0 < i
abbrev pub is_positive : ℤ → Bool
is_positive (pos n) = ltb 0 n
is_positive (negsuc n) = false

-- i <= j
abbrev pub at_most : ℤ → ℤ → Bool
at_most (pos a) (pos b) = leb a b
at_most (pos a) (negsuc b) = false
at_most (negsuc a) (pos b) = true
at_most (negsuc a) (negsuc b) = leb b a

-- t.Add(d)
abbrev pub moved : ℕ → ℤ → ℤ
moved t (pos d) = pos (t + d)
moved t (negsuc n) = if ltb n t then pos (t - suc n) else negsuc (n - t)

-- now.Sub(last) > window
abbrev pub older_than : ℕ → ℕ → ℤ → Bool
older_than now last (pos w) = ltb (last + w) now
older_than now last (negsuc n) = ltb last (now + suc n)

-- now.Sub(last) < window
abbrev pub younger_than : ℕ → ℕ → ℤ → Bool
younger_than now last (pos w) = ltb now (last + w)
younger_than now last (negsuc n) = ltb (now + suc n) last

-- The largest int, 2^63 - 1.
abbrev pub max_int : ℕ
max_int = 9223372036854775807

-- i++ on an int, which wraps
abbrev pub successor : ℤ → ℤ
successor (pos n) = if n == max_int then negsuc max_int else pos (suc n)
successor (negsuc zero) = pos 0
successor (negsuc (suc n)) = negsuc n
