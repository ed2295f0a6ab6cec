-- ===== src/Actions/Shuttle/Guards.antt =====
-- actions/shuttle.go: what is known of an action that was executed.
use aristo.Prelude.{
  ℕ, ◌≤◌, ◌≡◌, [], ◌∷◌, ◌≢◌, false, Bytes, is_empty, ok, Option, length, take, get_or, ap, ltb,
  arith,
}
use aristo.Prelude.Success.{bind-ok, lift-ok, reject_if-ok}
use aristo.Core.StateManager.{StateManager}
use aristo.Vm.CodeValidator
use aristo.Vm.CodeValidator.{header_magic, new_code_validator}
use aristo.Vm.CodeValidator.Accepted.{validate_code_iff}
use aristo.Actions.Attestations.{validate_code}
use aristo.Actions.Shuttle.{
  CreateObject, CreateObjectResult, create_object, asserted, create_units, bad_length,
  max_code_size, max_storage_size, is_missing,
}

fits : (n : ℕ) → ltb 1048576 n ≡ false → n ≤ 1048576
fits n h = ground arith

validate_code-nonempty : (code : Bytes) → validate_code code ≡ ok tt → 1 ≤ length code
unfolding validate_code
validate_code-nonempty [] h = cc
validate_code-nonempty (b ∷ bs) h = omega arith

no_header : (code : Bytes) → take 8 code ≡ header_magic → validate_code code ≢ ok tt
unfolding validate_code
no_header [] e h = cc
no_header (b ∷ bs) e h = ground (arith, ap (λ (l : Bytes). get_or l 0 0) e)

bad_length-bounds : (s : Bytes) → bad_length s ≡ false → (1 ≤ length s) × (length s ≤ 256)
unfolding bad_length
bad_length-bounds [] h = cc
bad_length-bounds (b ∷ bs) h = ground arith

units_bound :
    (c : CreateObject)
    → length c.code ≤ 1048576
    → length c.storage ≤ 1048576
    → create_units c ≤ 2049
unfolding create_units
units_bound c h k = omega arith

-- What the checks of a creation establish.
record Checked (c : CreateObject) : Type 0 where
  region_given : is_empty c.region_id ≡ false
  id_fits : bad_length c.id ≡ false
  code_fits : ltb max_code_size (length c.code) ≡ false
  storage_fits : ltb max_storage_size (length c.storage) ≡ false
  code_valid : validate_code c.code ≡ ok tt

module _ {S Region : Type 0} (mu : Option (StateManager S Region)) where
  create_object-Checked :
      (c : CreateObject) (timestamp : ℕ) (s : S) (r : CreateObjectResult)
      → (create_object mu c timestamp s).0 ≡ ok r
      → Checked c
  unfolding create_object
  create_object-Checked c timestamp s r h =
      let (region, h1) = reject_if-ok (is_empty c.region_id) _ _ s r h in
      let (manager, (is_manager, h1b)) = lift-ok (asserted mu) _ s r h1 in
      let (id, h2) = reject_if-ok (bad_length c.id) _ _ s r h1b in
      let (code, h3) = reject_if-ok (ltb max_code_size (length c.code)) _ _ s r h2 in
      let (storage, h4) = reject_if-ok (ltb max_storage_size (length c.storage)) _ _ s r h3 in
      let (x, (found, h5)) = bind-ok (manager.get_region c.region_id) _ s r h4 in
      let s1 = (manager.get_region c.region_id s).1 in
      let (present, h6) = reject_if-ok (is_missing x) _ _ s1 r h5 in
      let (exists, (looked, h7)) = bind-ok (manager.object_exists c.id c.region_id) _ s1 r h6 in
      let s2 = (manager.object_exists c.id c.region_id s1).1 in
      let (absent, h8) = reject_if-ok exists _ _ s2 r h7 in
      let (u, (valid, h9)) = lift-ok (validate_code c.code) _ s2 r h8 in
      record {
        region_given = region;
        id_fits = id;
        code_fits = code;
        storage_fits = storage;
        code_valid = valid;
      }

  -- An object that is created has an id of 1 to 256 bytes, code of 1 byte to 1 MiB and storage
  -- of at most 1 MiB, and its creation costs at most 2049 units.
  pub create_object-bounds :
      (c : CreateObject) (timestamp : ℕ) (s : S) (r : CreateObjectResult)
      → (create_object mu c timestamp s).0 ≡ ok r
      → ((1 ≤ length c.id) × (length c.id ≤ 256))
        × ((1 ≤ length c.code) × (length c.code ≤ 1048576))
        × (length c.storage ≤ 1048576)
        × (create_units c ≤ 2049)
  create_object-bounds c timestamp s r h =
      let checked = create_object-Checked c timestamp s r h in
      let code : length c.code ≤ 1048576 = fits (length c.code) checked.code_fits in
      let storage : length c.storage ≤ 1048576 = fits (length c.storage) checked.storage_fits in
      (
        bad_length-bounds c.id checked.id_fits,
        (validate_code-nonempty c.code checked.code_valid, code),
        storage,
        units_bound c code storage,
      )

  -- No object is created with code that the node's validator accepts, whatever its limit.
  pub create_object-validator :
      (c : CreateObject) (timestamp : ℕ) (s : S) (r : CreateObjectResult) (max : ℕ)
      → CodeValidator.validate_code (new_code_validator max) c.code ≡ ok tt
      → (create_object mu c timestamp s).0 ≢ ok r
  create_object-validator c timestamp s r max accepted h =
      no_header c.code (((validate_code_iff max c.code).0 accepted).2)
        (create_object-Checked c timestamp s r h).code_valid
