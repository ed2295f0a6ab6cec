-- ===== src/Vm/CodeValidator/Accepted.antt =====
-- What code must look like to be accepted.
use aristo.Prelude.{
  ℕ, ◌+◌, ◌≤◌, ◌≡◌, Bytes, ok, same_iff, length, take, drop, get_or, arith, ◌⊎◌, ◌↔◌,
}
use aristo.Vm.CodeValidator.{
  new_code_validator, validate_code, header_magic, header_size, wasm_magic, table_size,
  tee_type_sgx, tee_type_sev, format_wasm, format_custom,
}

abbrev pub IsWasmModule : Bytes → Type 0
IsWasmModule body = take 8 body ≡ wasm_magic

-- The table that the first four bytes announce lies within the code.
abbrev pub IsCustomImage : Bytes → Type 0
IsCustomImage body = table_size body + 4 ≤ length body

abbrev pub Acceptable : ℕ → Bytes → Type 0
Acceptable max_size code =
    (length code ≤ max_size)
    × (header_size ≤ length code)
    × (take 8 code ≡ header_magic)
    × (((get_or code 8 0 ≡ format_wasm)
          × ((get_or code 10 0 ≡ tee_type_sgx) ⊎ (get_or code 10 0 ≡ tee_type_sev))
          × (8 ≤ length (drop 16 code))
          × IsWasmModule (drop 16 code))
        ⊎ ((get_or code 8 0 ≡ format_custom)
            × (get_or code 10 0 ≡ tee_type_sev)
            × (4 ≤ length (drop 16 code))
            × IsCustomImage (drop 16 code)))

-- The node's validator accepts code exactly where it is no longer than the limit, carries the
-- header's magic, and is a WebAssembly module for SGX or SEV, or for SEV alone a custom image
-- whose table lies within the code.
pub validate_code_iff :
    (max_size : ℕ) (code : Bytes)
    → (validate_code (new_code_validator max_size) code ≡ ok tt) ↔ Acceptable max_size code
unfolding validate_code new_code_validator
validate_code_iff max_size code = (
  λ h.
      ground
        (arith, same_iff (take 8 code) header_magic, same_iff (take 8 (drop 16 code)) wasm_magic),
  λ h.
      ground
        (arith, same_iff (take 8 code) header_magic, same_iff (take 8 (drop 16 code)) wasm_magic),
)
