-- ===== src/Storage/Keys/Layout.antt =====
-- Regional keys can be read back, and keys of different objects, kinds and regions differ.
use mathlib.Core.List.{append_assoc}
use aristo.Prelude.{
  ℕ, ◌+◌, ◌≡◌, refl, sym, ap, [], ◌∷◌, ◌++◌, false, Bytes, text, same, is_empty, some, ◌<◌, arith,
}
use aristo.Prelude.Split.{
  slash, has_slash, split_n, split-append, split_n-append, has_prefix, decimal,
}
use aristo.Storage.Keys.{
  make_key, make_event_key, event_key, extract_region_from_key, is_regional_key, event_prefix,
}

-- Both functions that look for the region of a key find the one that a regional key was made
-- from, where it is not empty and has no slash.
pub make_key-region :
    (region id : Bytes) (prefix : ℕ)
    → is_empty region ≡ false
    → has_slash region ≡ false
    → (extract_region_from_key (make_key region prefix id) ≡ region)
      × (is_regional_key (make_key region prefix id) ≡ some region)
unfolding make_key extract_region_from_key is_regional_key same has_prefix
make_key-region region id prefix nonempty h =
    let rest = decimal prefix ++ slash ∷ id in
    rw nonempty (
      rw (split-append (text "r") (region ++ slash ∷ rest) refl, split-append region rest h),
      rw (
        split_n-append 1 (text "r") (region ++ slash ∷ rest) refl,
        split_n-append 0 region rest h,
      ),
    )

one_digit : (p : ℕ) → p < 10 → decimal p ≡ (48 + p) ∷ []
unfolding decimal
one_digit p h = ground arith

no_slash : (p : ℕ) → p < 10 → has_slash ((48 + p) ∷ []) ≡ false
no_slash p h = ground arith

-- The four parts of a regional key.
make_key-parts :
    (region id : Bytes) (prefix : ℕ)
    → is_empty region ≡ false
    → has_slash region ≡ false
    → prefix < 10
    → split_n 3 (make_key region prefix id) ≡ text "r" ∷ region ∷ ((48 + prefix) ∷ []) ∷ id ∷ []
unfolding make_key split_n
make_key-parts region id prefix nonempty h small =
    let digit : decimal prefix ≡ (48 + prefix) ∷ [] = one_digit prefix small in
    let plain : has_slash ((48 + prefix) ∷ []) ≡ false = no_slash prefix small in
    rw (nonempty, digit)
      (rw (
        split_n-append 2 (text "r") (region ++ slash ∷ (((48 + prefix) ∷ []) ++ slash ∷ id)) refl,
        split_n-append 1 region (((48 + prefix) ∷ []) ++ slash ∷ id) h,
        split_n-append 0 ((48 + prefix) ∷ []) id plain,
      ))

-- Two regional keys, of regions that are not empty and have no slash and of prefixes below ten,
-- are equal only if region, prefix and name are.
pub make_key-injective :
    (r r' id id' : Bytes) (p p' : ℕ)
    → (is_empty r ≡ false) × (has_slash r ≡ false) × (p < 10)
    → (is_empty r' ≡ false) × (has_slash r' ≡ false) × (p' < 10)
    → make_key r p id ≡ make_key r' p' id'
    → (r ≡ r') × (p ≡ p') × (id ≡ id')
make_key-injective r r' id id' p p' (n, h, s) (n', h', s') e =
    let parts = make_key-parts r id p n h s in
    let parts' = make_key-parts r' id' p' n' h' s' in
    ground (arith, parts, parts', ap (split_n 3) e)

-- With no region, a timestamp and a name, and the timestamp extended by the front of the name
-- and the rest of the name, have the same event key.
pub event_key_collision :
    (timestamp middle id : Bytes)
    → make_event_key [] timestamp (middle ++ id) ≡ make_event_key [] (timestamp ++ middle) id
unfolding make_event_key event_key
event_key_collision timestamp middle id =
    ap (λ (k : Bytes). event_prefix ∷ k) (sym (append_assoc timestamp middle id))
