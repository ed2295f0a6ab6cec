-- ===== src/Examples/Ranges.antt =====
-- A cache of two roots, and two ranges that it cannot tell apart.
use aristo.Prelude.{[], ◌∷◌, text}
use aristo.Coordination.RangeCache.{RangeProof, RangeCache, new_range_cache}
use aristo.Coordination.RangeCache.Bound.{IsWithin, put_all, put_all-IsWithin}

abbrev proof : RangeProof (Unit {0})
proof = record { start_key = text "a-b"; end_key = text "c"; entries = []; proof = tt }

abbrev empty : RangeCache (Unit {0})
empty = record { entries = []; size = 2 }

put_all-IsWithin_example : IsWithin 2 (
    put_all ((proof, text "r1") ∷ (proof, text "r2") ∷ (proof, text "r3") ∷ []) (new_range_cache 2))
put_all-IsWithin_example =
    put_all-IsWithin ((proof, text "r1") ∷ (proof, text "r2") ∷ (proof, text "r3") ∷ []) 2
