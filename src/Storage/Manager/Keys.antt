-- ===== src/Storage/Manager/Keys.antt =====
-- storage/state_manager.go: the keys of objects, events and regions in a region's store differ.
use aristo.Prelude.{◌≡◌, refl, ap, [], ◌∷◌, ◌++◌, false, Bytes, text, arith}
use aristo.Prelude.Split.{slash, has_slash, split_n, split_n-append, split_n_whole}
use aristo.Storage.Keys.{make_region_key, region_key, region_prefix}
use aristo.Storage.Stores.{make_regional_key}
use aristo.Storage.Manager.{object_key, event_key}

-- The parts of the key of `id` under a region's `kind`.
parts :
    (region kind id : Bytes)
    → has_slash region ≡ false
    → has_slash kind ≡ false
    → split_n 4 (make_regional_key region (make_region_key region kind id))
      ≡ text "r" ∷ region ∷ region ∷ kind ∷ id ∷ []
unfolding make_regional_key make_region_key split_n
parts region kind id h k = rw (
  split_n-append 3 (text "r") (region ++ slash ∷ (region ++ slash ∷ (kind ++ slash ∷ id))) refl,
  split_n-append 2 region (region ++ slash ∷ (kind ++ slash ∷ id)) h,
  split_n-append 1 region (kind ++ slash ∷ id) h,
  split_n-append 0 kind id k,
)

-- The key of a region has three parts.
region_parts :
    (region : Bytes)
    → has_slash region ≡ false
    → split_n 4 (make_regional_key region (region_key region))
      ≡ text "r" ∷ region ∷ (region_prefix ∷ region) ∷ []
unfolding make_regional_key region_key
region_parts region h = rw (
  split_n-append 3 (text "r") (region ++ slash ∷ (region_prefix ∷ region)) refl,
  split_n-append 2 region (region_prefix ∷ region) h,
  split_n_whole 2 (region_prefix ∷ region) h,
)

-- Two objects of regions without a slash have the same key only if region and id are the same.
pub object_key-injective :
    (region region' id id' : Bytes)
    → has_slash region ≡ false
    → has_slash region' ≡ false
    → make_regional_key region (object_key region id)
      ≡ make_regional_key region' (object_key region' id')
    → (region ≡ region') × (id ≡ id')
object_key-injective region region' id id' h h' e = ground (
  arith,
  parts region (text "object") id h refl,
  parts region' (text "object") id' h' refl,
  ap (split_n 4) e,
)

pub object_key-event :
    (region region' id id' : Bytes)
    → has_slash region ≡ false
    → has_slash region' ≡ false
    → make_regional_key region (event_key region id)
      ≡ make_regional_key region' (object_key region' id')
    → ⊥
object_key-event region region' id id' h h' e = ground (
  arith,
  parts region (text "event") id h refl,
  parts region' (text "object") id' h' refl,
  ap (split_n 4) e,
)

pub object_key-region :
    (region region' id' : Bytes)
    → has_slash region ≡ false
    → has_slash region' ≡ false
    → make_regional_key region (region_key region)
      ≡ make_regional_key region' (object_key region' id')
    → ⊥
object_key-region region region' id' h h' e =
    ground
      (arith, region_parts region h, parts region' (text "object") id' h' refl, ap (split_n 4) e)
