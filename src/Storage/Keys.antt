-- ===== src/Storage/Keys.antt =====
-- storage/storage.go and storage/state_manager.go: the layouts of the keys.
pub mod Layout
use aristo.Prelude.{
  ℕ, ◌≡◌, [], ◌∷◌, ◌++◌, List, Bool, true, false, Bytes, text, same, is_empty, Option, none, some,
  length, ltb, ◌||◌, if◌then◌else◌,
}
use aristo.Prelude.Split.{slash, split, split_n, has_prefix, decimal}

abbrev pub object_prefix : ℕ
object_prefix = 4

abbrev pub event_prefix : ℕ
event_prefix = 5

abbrev pub region_prefix : ℕ
region_prefix = 7

abbrev pub coord_prefix : ℕ
coord_prefix = 8

-- The key of a region: `r/<region>/<prefix>/<id>`; with no region the prefix byte and the id.
unfoldable pub make_key : Bytes → ℕ → Bytes → Bytes
unfolding decimal
make_key region prefix id =
    if is_empty region
    then prefix ∷ id
    else text "r/" ++ (region ++ slash ∷ (decimal prefix ++ slash ∷ id))

unfoldable pub make_object_key : Bytes → Bytes → Bytes
unfolding make_key
make_object_key region id = make_key region object_prefix id

unfoldable pub event_key : Bytes → Bytes → Bytes
event_key timestamp id = event_prefix ∷ (timestamp ++ id)

unfoldable pub make_event_key : Bytes → Bytes → Bytes → Bytes
unfolding make_key event_key
make_event_key region timestamp id =
    if is_empty region
    then event_key timestamp id
    else make_key region event_prefix (timestamp ++ slash ∷ id)

unfoldable pub make_state_key : Bytes → Bytes → Bytes
unfolding make_key
make_state_key region id = make_key region coord_prefix id

unfoldable pub coordination_key : Bytes → Bytes
coordination_key id = coord_prefix ∷ id

unfoldable pub object_key : Bytes → Bytes
object_key id = object_prefix ∷ id

unfoldable pub region_key : Bytes → Bytes
region_key id = region_prefix ∷ id

-- The first two parts of a split key.
unfoldable pub region_of_parts : List Bytes → Bytes
region_of_parts (p ∷ region ∷ rest) = if same p (text "r") then region else []
region_of_parts _ = []

unfoldable pub extract_region_from_key : Bytes → Bytes
unfolding region_of_parts
extract_region_from_key key = region_of_parts (split key)

unfoldable pub second_part : List Bytes → Option Bytes
second_part (p ∷ region ∷ rest) = some region
second_part _ = none

-- StateManager.IsRegionalKey: whether the key is regional, with its region.
unfoldable pub is_regional_key : Bytes → Option Bytes
unfolding second_part
is_regional_key key = if has_prefix key (text "r/") then second_part (split_n 2 key) else none

-- makeRegionKey of state_manager.go: `<region>/<prefix>/<id>`.
unfoldable pub make_region_key : Bytes → Bytes → Bytes → Bytes
make_region_key region prefix id = region ++ slash ∷ (prefix ++ slash ∷ id)
