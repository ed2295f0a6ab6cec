-- ===== src/Xregion/Intent/Dependencies.antt =====
-- What the dependencies and the state changes of an intent hold after an addition.
use aristo.Prelude.{
  ◌≡◌, [], ◌∷◌, ◌++◌, List, true, Bytes, same, same_iff, same_refl, if◌then◌else◌, arith,
}
use aristo.Prelude.Dict
use aristo.Prelude.Dict.{Dict}
use aristo.Xregion.Intent.{
  CrossRegionIntent, StateChange, slice_at, get_dependencies, get_state_changes, add_state_change,
  has_dependency, add_dependency,
}

slice_at-insert :
    {A : Type 0} (k j : Bytes) (xs : List A) (m : Dict (List A))
    → slice_at j (Dict.insert k xs m) ≡ (if same k j then xs else slice_at j m)
unfolding slice_at
slice_at-insert k j xs m = ground (arith, Dict.lookup-insert k j xs m)

has_dependency-append : (d : Bytes) (es : List Bytes) → has_dependency d (es ++ d ∷ []) ≡ true
unfolding has_dependency
has_dependency-append d [] = ground (arith, same_refl d)
has_dependency-append d (e ∷ es) = ground (arith, has_dependency-append d es)

has_dependency-added :
    (region d : Bytes) (i : CrossRegionIntent)
    → has_dependency d (get_dependencies region (add_dependency region d i)) ≡ true
unfolding add_dependency get_dependencies
has_dependency-added region d i = ground (
  arith,
  slice_at-insert region region (slice_at region i.dependencies ++ d ∷ []) i.dependencies,
  same_refl region,
  has_dependency-append d (slice_at region i.dependencies),
)

-- Adding a dependency a second time changes nothing.
pub add_dependency_idem :
    (region d : Bytes) (i : CrossRegionIntent)
    → add_dependency region d (add_dependency region d i) ≡ add_dependency region d i
unfolding add_dependency get_dependencies
add_dependency_idem region d i = ground (arith, has_dependency-added region d i)

-- After a state change is added to a region, the region's changes are those before with the new
-- one last, and those of every other region are as before.
pub get_state_changes-add_state_change :
    (region other : Bytes) (change : StateChange) (i : CrossRegionIntent)
    → get_state_changes other (add_state_change region change i) ≡ (
        if same region other
        then get_state_changes other i ++ change ∷ []
        else get_state_changes other i)
unfolding get_state_changes add_state_change
get_state_changes-add_state_change region other change i = ground (
  arith,
  same_iff region other,
  slice_at-insert region other (slice_at region i.state_changes ++ change ∷ []) i.state_changes,
)
