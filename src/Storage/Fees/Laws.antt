-- ===== src/Storage/Fees/Laws.antt =====
-- What charging a fee does to the payer's balance.
use aristo.Prelude.{ℕ, ◌-◌, ◌≤◌, ◌<◌, ◌≡◌, ◌≢◌, ◌↔◌, Bytes, ok, same, same_iff, arith, false}
use aristo.Storage.State.{Mutable, IsMutable, IsWritable}
use aristo.Storage.Words.{u64_mod, put_u64}
use aristo.Storage.Balance.{balance_key, get_balance, set_balance}
use aristo.Storage.Balance.Laws.{Sets, get_balance-set_balance}
use aristo.Storage.Fees.{create_balance_key, deduct, can_deduct}

module _ {S : Type 0} (mu : Mutable S) (laws : IsMutable mu) (string : Bytes → Bytes)
    (string-injective : (a b : Bytes) → string a ≡ string b → a ≡ b) where
  -- The check before a fee is charged passes exactly where the balance covers the amount.
  pub can_deduct_iff :
      (a : Bytes) (b v : ℕ) (s : S)
      → get_balance mu string a s ≡ ok b
      → (can_deduct mu string a v s ≡ (ok tt, s)) ↔ (v ≤ b)
  unfolding can_deduct
  can_deduct_iff a b v s e = (λ h. ground arith, λ h. ground arith)

  -- Over a state that keeps its writes and refuses none, charging less than the balance
  -- succeeds, leaves the difference on the account, and leaves every other account as before.
  pub deduct_part :
      IsWritable mu
      → (a : Bytes) (b v : ℕ) (s : S) → get_balance mu string a s ≡ ok b
      → b < u64_mod
      → v < b
      → (t : S) × (deduct mu string a v s ≡ (ok tt, t))
        × Sets mu laws string string-injective a (b - v) s t
  unfolding deduct set_balance
  deduct_part writable a b v s e small less =
      let (t, w) = writable.insert_total s (balance_key mu string a) (put_u64 (b - v)) in
      (
        t,
        ground arith,
        λ j.
            get_balance-set_balance mu laws string string-injective a j (b - v) s t (omega arith) w,
      )

  keys_differ :
      (a : Bytes) → string a ≢ a → same (create_balance_key a) (balance_key mu string a) ≡ false
  unfolding same
  keys_differ a differs = ground (arith, same_iff a (string a))

  -- Where the text of an address is not its bytes, a charge of the whole balance that succeeds
  -- leaves the whole balance on the account.
  pub deduct_all :
      (a : Bytes) (b : ℕ) (s t : S)
      → string a ≢ a
      → get_balance mu string a s ≡ ok b
      → deduct mu string a b s ≡ (ok tt, t)
      → get_balance mu string a t ≡ ok b
  unfolding deduct get_balance
  deduct_all a b s t differs e h =
      let removed : mu.remove s (create_balance_key a) ≡ ok t = ground arith in
      rw (laws.get-remove s t (create_balance_key a) (balance_key mu string a) removed)
        (rw (keys_differ a differs) e)
