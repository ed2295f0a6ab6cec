-- ===== src/Core/RegionalKey.antt =====
-- core/regional_helpers.go: keys with a region in front, `r/<region>/<key>`.
use aristo.Prelude.{
  ◌≡◌, refl, ◌∷◌, ◌++◌, List, false, Bytes, text, same, is_empty, Result, ok, err,
  invalid_regional_key, invalid_region_id, if◌then◌else◌,
}
use aristo.Prelude.Split.{slash, has_slash, split, split-append, split_whole}

-- bytes.Join of "r", the region and the key.
unfoldable pub make_regional_key : Bytes → Bytes → Bytes
make_regional_key region key = text "r" ++ slash ∷ (region ++ slash ∷ key)

unfoldable pub parse_parts : List Bytes → Result (Bytes × Bytes)
parse_parts (p ∷ region ∷ key ∷ rest) =
    if same p (text "r") then ok (region, key) else err invalid_regional_key
parse_parts _ = err invalid_regional_key

unfoldable pub parse_regional_key : Bytes → Result (Bytes × Bytes)
unfolding parse_parts
parse_regional_key key = parse_parts (split key)

unfoldable pub validate_region_id : Bytes → Result (Unit {0})
validate_region_id id = if is_empty id then err invalid_region_id else ok tt

-- The region and the key that a regional key was made from are read back, where neither has a
-- slash.
pub parse-make_regional_key :
    (region key : Bytes)
    → has_slash region ≡ false
    → has_slash key ≡ false
    → parse_regional_key (make_regional_key region key) ≡ ok (region, key)
unfolding parse_regional_key make_regional_key same
parse-make_regional_key region key h k = rw (
  split-append (text "r") (region ++ slash ∷ key) refl,
  split-append region key h,
  split_whole key k,
)

-- Of a key that has a slash only the part in front of its first slash is read back, where the
-- region has none.
pub parse-make_regional_key_cut :
    (region key rest : Bytes)
    → has_slash region ≡ false
    → has_slash key ≡ false
    → parse_regional_key (make_regional_key region (key ++ slash ∷ rest)) ≡ ok (region, key)
unfolding parse_regional_key make_regional_key same
parse-make_regional_key_cut region key rest h k = rw (
  split-append (text "r") (region ++ slash ∷ (key ++ slash ∷ rest)) refl,
  split-append region (key ++ slash ∷ rest) h,
  split-append key rest k,
)
