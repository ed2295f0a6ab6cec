-- ===== src/Examples/Code.antt =====
-- A small WebAssembly module, packed and judged.
use aristo.Prelude.{◌≡◌, ◌↔◌, ◌∷◌, ◌++◌, Bytes, ok}
use aristo.Vm.CodeValidator.{new_code_validator, validate_code, wasm_magic, header_magic}
use aristo.Vm.CodeValidator.Accepted.{Acceptable, validate_code_iff}

abbrev packed : Bytes
packed = header_magic ++ (2 ∷ 1 ∷ 1 ∷ 0 ∷ 0 ∷ 0 ∷ 0 ∷ 0 ∷ wasm_magic)

validate_code_iff_example :
    (validate_code (new_code_validator 64) packed ≡ ok tt) ↔ Acceptable 64 packed
validate_code_iff_example = validate_code_iff 64 packed
