-- ===== src/Coordination/Channel/Naming.antt =====
-- The stored name of a channel.
use aristo.Prelude.{
  ◌≡◌, ◌⊎◌, inl, inr, ◌∷◌, [], ◌++◌, Bytes, Bool, false, before, before_total, before_asymm, arith,
  Bool-cases, ◌==◌, ◌||◌,
}
use aristo.Coordination.Channel.{make_channel_key}

-- The key of the channel between two workers does not depend on the order in which they are
-- named.
pub make_channel_key_comm : (a b : Bytes) → make_channel_key a b ≡ make_channel_key b a
unfolding make_channel_key
make_channel_key_comm a b = elim (Bool-cases (before a b)) [
  | inl first ↦ rw (first, before_asymm a b first)
  | inr other ↦ elim (Bool-cases (before b a)) [
    | inl second ↦ rw (other, second)
    | inr neither ↦ rw (before_total a b other neither)
  ]
]

abbrev pub has_colon : Bytes → Bool
has_colon [] = false
has_colon (c ∷ cs) = c == 58 || has_colon cs

append-injective :
    (a b c d : Bytes)
    → has_colon a ≡ false
    → has_colon c ≡ false
    → a ++ 58 ∷ b ≡ c ++ 58 ∷ d
    → (a ≡ c) × (b ≡ d)
append-injective [] b [] d h k e = ground arith
append-injective [] b (x ∷ c) d h k e = absurd (ground arith)
append-injective (x ∷ a) b [] d h k e = absurd (ground arith)
append-injective (x ∷ a) b (y ∷ c) d h k e = ground (arith, append-injective a b c d)

-- Two pairs of worker names without a colon have the same channel key only if they are the same
-- pair, in either order.
pub make_channel_key-injective :
    (a b c d : Bytes)
    → (has_colon a ≡ false) × (has_colon b ≡ false)
    → (has_colon c ≡ false) × (has_colon d ≡ false)
    → make_channel_key a b ≡ make_channel_key c d
    → ((a ≡ c) × (b ≡ d)) ⊎ ((a ≡ d) × (b ≡ c))
unfolding make_channel_key
make_channel_key-injective a b c d h k e = ground (
  arith,
  append-injective a b c d,
  append-injective a b d c,
  append-injective b a c d,
  append-injective b a d c,
)
