-- ===== src/Vm/CodeValidator.antt =====
-- vm/code_validator.go: the header and format checks on uploaded code. The two maps that the
-- constructor fills are association lists keyed by a byte.
pub mod RoundTrip
pub mod Accepted
use aristo.Storage.Words.{u64_mod}
use aristo.Prelude.{
  ℕ, zero, suc, ◌+◌, ◌*◌, ◌^◌, ◌≡◌, [], ◌∷◌, ◌++◌, List, Bool, true, false, ◌||◌, Bytes, same,
  Option, none, some, Result, ok, err, length, take, drop, get_or, ltb, ◌==◌, if◌then◌else◌,
  invalid_format, unsupported_format, malformed_code, code_exceeds_limit, invalid_header,
  invalid_tee_format, invalid_tee_type,
}

abbrev pub tee_type_sgx : ℕ
tee_type_sgx = 1

abbrev pub tee_type_sev : ℕ
tee_type_sev = 2

abbrev pub format_raw : ℕ
format_raw = 1

abbrev pub format_wasm : ℕ
format_wasm = 2

abbrev pub format_custom : ℕ
format_custom = 3

-- "\x00SHUTTLE"
abbrev pub header_magic : Bytes
header_magic = 0 ∷ 83 ∷ 72 ∷ 85 ∷ 84 ∷ 84 ∷ 76 ∷ 69 ∷ []

abbrev pub header_size : ℕ
header_size = 16

-- The bytes in front of a WebAssembly module.
abbrev pub wasm_magic : Bytes
wasm_magic = 0 ∷ 97 ∷ 115 ∷ 109 ∷ 1 ∷ 0 ∷ 0 ∷ 0 ∷ []

-- The implementations of `FormatValidator`.
pub data FormatValidator : Type 0 where
  raw wasm custom : FormatValidator

pub record CodeValidator : Type 0 where
  pub max_size : ℕ
  pub formats : List (ℕ × FormatValidator)
  pub tee_formats : List (ℕ × List ℕ)

unfoldable pub find {ℓ} : {V : Type ℓ} → ℕ → List (ℕ × V) → Option V
find k [] = none
find k ((j, v) ∷ m) = if j == k then some v else find k m

unfoldable pub put {ℓ} : {V : Type ℓ} → ℕ → V → List (ℕ × V) → List (ℕ × V)
put k v [] = (k, v) ∷ []
put k v ((j, w) ∷ m) = if j == k then (j, v) ∷ m else (j, w) ∷ put k v m

unfoldable pub register_format : ℕ → FormatValidator → CodeValidator → CodeValidator
unfolding put
register_format format validator cv = record cv { formats = put format validator cv.formats }

unfoldable pub register_tee_format : ℕ → List ℕ → CodeValidator → CodeValidator
unfolding put
register_tee_format tee_type formats cv = record cv {
  tee_formats = put tee_type formats cv.tee_formats;
}

unfoldable pub new_code_validator : ℕ → CodeValidator
unfolding register_format register_tee_format
new_code_validator max_size =
    let cv : CodeValidator = record { max_size = max_size; formats = []; tee_formats = [] } in
    let cv1 = register_format format_raw raw cv in
    let cv2 = register_format format_wasm wasm cv1 in
    let cv3 = register_format format_custom custom cv2 in
    let cv4 = register_tee_format tee_type_sgx (format_wasm ∷ []) cv3 in
    register_tee_format tee_type_sev (format_wasm ∷ format_custom ∷ []) cv4

-- `binary.LittleEndian.Uint32` of the first four bytes.
unfoldable pub table_size : Bytes → ℕ
table_size code =
    get_or code 0 0 + get_or code 1 0 * 2 ^ 8 + get_or code 2 0 * 2 ^ 16 + get_or code 3 0 * 2 ^ 24

unfoldable pub validate : FormatValidator → Bytes → Result (Unit {0})
unfolding table_size
validate raw code = if length code == 0 then err malformed_code else ok tt
validate wasm code =
    if ltb (length code) (length wasm_magic)
    then err malformed_code
    else if same (take (length wasm_magic) code) wasm_magic
    then ok tt
    else err invalid_format
validate custom code =
    if ltb (length code) 4
    then err malformed_code
    else if ltb (length code) (table_size code + 4)
    then err malformed_code
    else ok tt

unfoldable pub validate_for_tee : FormatValidator → Bytes → ℕ → Result (Unit {0})
validate_for_tee raw code tee_type = err invalid_tee_format
validate_for_tee wasm code tee_type = ok tt
validate_for_tee custom code tee_type = ok tt

unfoldable pub is_valid_tee_type : ℕ → Bool
is_valid_tee_type tee_type = tee_type == tee_type_sgx || tee_type == tee_type_sev

unfoldable pub contains : ℕ → List ℕ → Bool
contains format [] = false
contains format (f ∷ fs) = f == format || contains format fs

unfoldable pub is_format_supported_by_tee : CodeValidator → ℕ → ℕ → Bool
unfolding find contains
is_format_supported_by_tee cv format tee_type = elim (find tee_type cv.tee_formats) [
  | none ↦ false
  | some fs ↦ contains format fs
]

unfoldable pub validate_format : Option FormatValidator → Bytes → Result (Unit {0})
unfolding validate
validate_format none code = err unsupported_format
validate_format (some v) code = validate v code

unfoldable pub validate_code : CodeValidator → Bytes → Result (Unit {0})
unfolding is_valid_tee_type is_format_supported_by_tee validate_format
validate_code cv code =
    if ltb cv.max_size (length code)
    then err code_exceeds_limit
    else if ltb (length code) header_size
    then err invalid_header
    else if same (take 8 code) header_magic
    then (let format = get_or code 8 0 in
        let tee_type = get_or code 10 0 in
        if is_valid_tee_type tee_type
        then (if is_format_supported_by_tee cv format tee_type
            then validate_format (find format cv.formats) (drop header_size code)
            else err invalid_tee_format)
        else err invalid_tee_type)
    else err invalid_header

-- The header (the magic, the three bytes, five zero bytes) and the code behind it.
unfoldable pub create_code : ℕ → ℕ → ℕ → Bytes → Bytes
create_code format version tee_type code =
    header_magic ++ (format ∷ version ∷ tee_type ∷ 0 ∷ 0 ∷ 0 ∷ 0 ∷ 0 ∷ code)
