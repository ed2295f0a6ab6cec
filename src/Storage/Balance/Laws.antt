-- ===== src/Storage/Balance/Laws.antt =====
-- What the balance operations of storage/storage.go do to every account.
use aristo.Prelude.{
  ℕ, ◌+◌, ◌-◌, ◌≤◌, ◌<◌, ◌≡◌, refl, ap, Bool, true, false, Bytes, Result, ok, err, balance_overflow,
  insufficient_balance, same, same_iff, arith, if◌then◌else◌, Bool-cases, inl, inr, ◌==◌, ==_iff,
}
use aristo.Storage.State.{Mutable, IsMutable, IsWritable}
use aristo.Storage.Words.{u64_mod, put_u64, get_u64-put_u64, length-put_u64}
use aristo.Storage.Balance.{
  balance_key, read_balance, get_balance, set_balance, add_balance, sub_balance,
}

read_balance-put_u64 : (v : ℕ) → v < u64_mod → read_balance (ok (put_u64 v)) ≡ ok v
unfolding read_balance
read_balance-put_u64 v h = rw (length-put_u64 v, get_u64-put_u64 v h)

read_balance-if :
    (b : Bool) (r q : Result Bytes)
    → read_balance (if b then r else q) ≡ (if b then read_balance r else read_balance q)
read_balance-if true r q = refl
read_balance-if false r q = refl

module _ {S : Type 0} (mu : Mutable S) (laws : IsMutable mu) (string : Bytes → Bytes)
    (string-injective : (a b : Bytes) → string a ≡ string b → a ≡ b) where
  string-eq : (a b : Bytes) → a ≡ b → string a ≡ string b
  string-eq a b e = ap string e

  same-balance_key :
      (a b : Bytes) → same (balance_key mu string a) (balance_key mu string b) ≡ same a b
  unfolding same
  same-balance_key a b =
      ground
        (arith, same_iff (string a) (string b), same_iff a b, string-injective a b, string-eq a b)

  pub get_balance-set_balance :
      (a b : Bytes) (v : ℕ) (s t : S)
      → v < u64_mod
      → set_balance mu string a v s ≡ ok t
      → get_balance mu string b t ≡ (if same a b then ok v else get_balance mu string b s)
  unfolding get_balance set_balance
  get_balance-set_balance a b v s t small e =
      rw (laws.get-insert s t (balance_key mu string a) (put_u64 v) (balance_key mu string b) e)
        (rw (same-balance_key a b, read_balance-if) (rw (read_balance-put_u64 v small)))

  pub get_balance-remove :
      (a b : Bytes) (s t : S)
      → mu.remove s (balance_key mu string a) ≡ ok t
      → get_balance mu string b t ≡ (if same a b then ok 0 else get_balance mu string b s)
  unfolding get_balance read_balance
  get_balance-remove a b s t e =
      rw (laws.get-remove s t (balance_key mu string a) (balance_key mu string b) e)
        (rw (same-balance_key a b, read_balance-if) refl)

  -- What a call leaves behind: the new balance of one account, and no other balance changed.
  abbrev pub Sets : Bytes → ℕ → S → S → Type 0
  Sets a v s t =
      (j : Bytes)
      → get_balance mu string j t ≡ (if same a j then ok v else get_balance mu string j s)

  pub add_balance_overflow :
      (a : Bytes) (b v : ℕ) (s : S)
      → get_balance mu string a s ≡ ok b
      → b < u64_mod
      → v < u64_mod
      → u64_mod ≤ b + v
      → add_balance mu string a v s ≡ (err balance_overflow, s)
  unfolding add_balance
  add_balance_overflow a b v s e hb hv h = ground arith

  pub sub_balance_insufficient :
      (a : Bytes) (b v : ℕ) (s : S)
      → get_balance mu string a s ≡ ok b
      → b < v
      → sub_balance mu string a v s ≡ (err insufficient_balance, s)
  unfolding sub_balance
  sub_balance_insufficient a b v s e h = ground arith

  module _ (writable : IsWritable mu) where
    -- Over a state that keeps its writes and refuses none, an addition that does not overflow
    -- returns the sum, the account reads as the sum, and every other account reads as before.
    pub add_balance_exact :
        (a : Bytes) (b v : ℕ) (s : S)
        → get_balance mu string a s ≡ ok b
        → b + v < u64_mod
        → (t : S) × (add_balance mu string a v s ≡ (ok (b + v), t)) × Sets a (b + v) s t
    unfolding add_balance set_balance
    add_balance_exact a b v s e h =
        let (t, w) = writable.insert_total s (balance_key mu string a) (put_u64 (b + v)) in
        (t, ground arith, λ j. get_balance-set_balance a j (b + v) s t h w)

    -- Over a state that keeps its writes and refuses none, a subtraction that the balance covers
    -- returns the difference, the account reads as the difference, also where it is zero and the
    -- key is removed, and every other account reads as before.
    pub sub_balance_exact :
        (a : Bytes) (b v : ℕ) (s : S)
        → get_balance mu string a s ≡ ok b
        → b < u64_mod
        → v ≤ b
        → (t : S) × (sub_balance mu string a v s ≡ (ok (b - v), t)) × Sets a (b - v) s t
    unfolding sub_balance set_balance
    sub_balance_exact a b v s e hb h = elim (Bool-cases (b - v == 0)) [
      | inl z ↦
          let (t, w) = writable.remove_total s (balance_key mu string a) in
          let zero_left : b - v ≡ 0 = omega (arith, (==_iff (b - v) 0).0 z) in
          (t, ground arith, λ j. rw zero_left (get_balance-remove a j s t w))
      | inr z ↦
          let (t, w) = writable.insert_total s (balance_key mu string a) (put_u64 (b - v)) in
          (t, ground arith, λ j. get_balance-set_balance a j (b - v) s t (omega arith) w)
    ]
