-- ===== src/Storage/Balance/Frame.antt =====
-- The balance operations write one key of the state.
use aristo.Prelude.{ℕ, ◌≡◌, false, Bytes, Result, ok, same}
use aristo.Prelude.Preserves.{Preserves, Preserves-store, preserves_rules}
use aristo.Storage.State.{Mutable, IsMutable}
use aristo.Storage.Balance.{balance_key, set_balance, add_balance, sub_balance}

abbrev pub Reads : {S : Type 0} → Mutable S → Bytes → Result Bytes → S → Type 0
Reads mu k was t = mu.get_value t k ≡ was

module _ {S : Type 0} (mu : Mutable S) (laws : IsMutable mu) (string : Bytes → Bytes) (k a : Bytes)
    (other : same (balance_key mu string a) k ≡ false) (was : Result Bytes) where
  set_balance-Reads :
      (v : ℕ) (s t : S) → Reads mu k was s → set_balance mu string a v s ≡ ok t → Reads mu k was t
  unfolding set_balance
  set_balance-Reads v s t h e = rw (laws.get-insert s t _ _ k e, other) h

  remove-Reads :
      (s t : S) → Reads mu k was s → mu.remove s (balance_key mu string a) ≡ ok t → Reads mu k was t
  remove-Reads s t h e = rw (laws.get-remove s t _ k e, other) h

  pub add_balance-Reads : (v : ℕ) → Preserves (Reads mu k was) (add_balance mu string a v)
  unfolding add_balance
  add_balance-Reads v = search (preserves_rules, Preserves-store, set_balance-Reads)

  pub sub_balance-Reads : (v : ℕ) → Preserves (Reads mu k was) (sub_balance mu string a v)
  unfolding sub_balance
  sub_balance-Reads v = search (preserves_rules, Preserves-store, set_balance-Reads, remove-Reads)
