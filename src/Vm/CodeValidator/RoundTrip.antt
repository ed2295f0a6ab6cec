-- ===== src/Vm/CodeValidator/RoundTrip.antt =====
-- Code that `create_code` packs is judged by its format and its TEE alone.
use aristo.Prelude.{
  ℕ, ◌+◌, ◌≡◌, Bytes, err, same, length, arith, leb, code_exceeds_limit, invalid_tee_format,
  invalid_tee_type, if◌then◌else◌, ◌==◌,
}
use aristo.Vm.CodeValidator.{
  wasm, custom, new_code_validator, validate_code, validate, create_code, tee_type_sgx,
  tee_type_sev, format_wasm, format_custom,
}

-- Code that is packed with a header is judged as follows, whatever its version byte: too long
-- with its header, it exceeds the limit; else an unknown TEE, then a format that the TEE does
-- not take, is named as the error; else its format's own check decides.
pub validate-create_code :
    (max_size format version tee_type : ℕ) (code : Bytes)
    → validate_code (new_code_validator max_size) (create_code format version tee_type code) ≡ (
        if leb (length code + 16) max_size
        then (if tee_type == tee_type_sgx
            then (if format == format_wasm then validate wasm code else err invalid_tee_format)
            else if tee_type == tee_type_sev
            then (if format == format_wasm
                then validate wasm code
                else if format == format_custom
                then validate custom code
                else err invalid_tee_format)
            else err invalid_tee_type)
        else err code_exceeds_limit)
unfolding validate_code create_code new_code_validator same
validate-create_code max_size format version tee_type code = ground arith
