-- ===== src/Storage/Words.antt =====
-- `binary.BigEndian` and `binary.LittleEndian` of the Go standard library, as far as the program
-- uses them: unsigned words of 64 and 32 bits.
use aristo.Prelude.{
  ℕ, ◌+◌, ◌*◌, ◌/◌, ◌%◌, ◌^◌, ◌<◌, ◌≡◌, refl, [], ◌∷◌, Bytes, get_or, length, arith,
}

abbrev pub u64_mod : ℕ
u64_mod = 2 ^ 64

-- BigEndian.PutUint64 into a new slice of eight bytes.
unfoldable pub put_u64 : ℕ → Bytes
put_u64 v =
    (v / 2 ^ 56 % 256)
    ∷ (v / 2 ^ 48 % 256)
    ∷ (v / 2 ^ 40 % 256)
    ∷ (v / 2 ^ 32 % 256)
    ∷ (v / 2 ^ 24 % 256)
    ∷ (v / 2 ^ 16 % 256)
    ∷ (v / 2 ^ 8 % 256)
    ∷ (v % 256)
    ∷ []

-- BigEndian.Uint64 of a slice that has eight bytes at least.
unfoldable pub get_u64 : Bytes → ℕ
get_u64 b =
    get_or b 0 0 * 2 ^ 56
    + get_or b 1 0 * 2 ^ 48
    + get_or b 2 0 * 2 ^ 40
    + get_or b 3 0 * 2 ^ 32
    + get_or b 4 0 * 2 ^ 24
    + get_or b 5 0 * 2 ^ 16
    + get_or b 6 0 * 2 ^ 8
    + get_or b 7 0

pub length-put_u64 : (v : ℕ) → length (put_u64 v) ≡ 8
unfolding put_u64
length-put_u64 v = refl

pub get_u64-put_u64 : (v : ℕ) → v < u64_mod → get_u64 (put_u64 v) ≡ v
unfolding get_u64 put_u64
get_u64-put_u64 v h = omega arith
