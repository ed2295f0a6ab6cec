-- ===== src/Storage/Fees.antt =====
-- storage/state_manager.go: the fee handling that hypersdk calls (`chain.StateManager`). It reads
-- and sets balances under the key of storage.go, and has a key of its own, `create_balance_key`.
-- `add64` is avalanchego's `math.Add64`, `string` hypersdk's `Address.String`.
pub mod Laws
use aristo.Prelude.{
  ℕ, ◌-◌, [], ◌∷◌, Bool, not, ◌&&◌, Bytes, Result, ok, err, Act, pure, ◌>>=◌, ◌>>◌, reject_if, gets,
  store, lift, insufficient_balance, db_not_found, ltb, ◌==◌, if◌then◌else◌,
}
use aristo.Prelude.Dict
use aristo.Prelude.Dict.{Dict}
use aristo.Storage.State.{Mutable}
use aristo.Storage.Balance.{get_balance, set_balance}

abbrev pub create_balance_key : Bytes → Bytes
create_balance_key addr = 0 ∷ addr

unfoldable pub sponsor_state_keys : {Permission : Type 0} → Permission → Bytes → Dict Permission
sponsor_state_keys read_write addr = Dict.insert (create_balance_key addr) read_write []

module _ {S : Type 0} (mu : Mutable S) (string : Bytes → Bytes) where
  unfoldable pub add_fee_balance : (ℕ → ℕ → Result ℕ) → Bytes → ℕ → Bool → Act S (Unit {0})
  add_fee_balance add64 addr amount create_account = do
    old_bal ← gets (get_balance mu string addr)
    reject_if (not create_account && old_bal == 0) db_not_found
    new_bal ← lift (add64 old_bal amount)
    store (set_balance mu string addr new_bal) tt

  unfoldable pub deduct : Bytes → ℕ → Act S (Unit {0})
  deduct addr amount = do
    old_bal ← gets (get_balance mu string addr)
    reject_if (ltb old_bal amount) insufficient_balance
    let new_bal = old_bal - amount
    if new_bal == 0
        then store (λ s. mu.remove s (create_balance_key addr)) tt
        else store (set_balance mu string addr new_bal) tt

  unfoldable pub can_deduct : Bytes → ℕ → Act S (Unit {0})
  can_deduct addr amount = do
    bal ← gets (get_balance mu string addr)
    reject_if (ltb bal amount) insufficient_balance
    pure tt
