-- ===== src/Storage/Balance.antt =====
-- storage/storage.go: balances. `string` is `codec.Address.String`, which hypersdk defines.
pub mod Laws
pub mod Frame
use aristo.Prelude.{
  ℕ, ◌+◌, ◌-◌, ◌%◌, ◌∷◌, Bytes, Result, ok, err, panic, Act, ◌>>=◌, ◌>>◌, reject_if, gets, store,
  insufficient_balance, balance_overflow, corrupt_balance, length, ltb, ◌==◌, if◌then◌else◌,
}
use aristo.Storage.State.{Mutable, is_db_not_found}
use aristo.Storage.Words.{u64_mod, put_u64, get_u64}

unfoldable pub read_balance : Result Bytes → Result ℕ
unfolding is_db_not_found
read_balance (ok val) = if ltb (length val) 8 then err corrupt_balance else ok (get_u64 val)
read_balance (err e) = if is_db_not_found e then ok 0 else err e
read_balance (panic c) = panic c

module _ {S : Type 0} (mu : Mutable S) (string : Bytes → Bytes) where
  abbrev pub balance_key : Bytes → Bytes
  balance_key addr = 0 ∷ string addr

  unfoldable pub get_balance : Bytes → S → Result ℕ
  get_balance addr s = read_balance (mu.get_value s (balance_key addr))

  unfoldable pub set_balance : Bytes → ℕ → S → Result S
  set_balance addr balance s = mu.insert s (balance_key addr) (put_u64 balance)

  unfoldable pub add_balance : Bytes → ℕ → Act S ℕ
  add_balance addr amount = do
    balance ← gets (get_balance addr)
    let new_balance = (balance + amount) % u64_mod
    reject_if (ltb new_balance balance) balance_overflow
    store (set_balance addr new_balance) new_balance

  unfoldable pub sub_balance : Bytes → ℕ → Act S ℕ
  sub_balance addr amount = do
    old_bal ← gets (get_balance addr)
    reject_if (ltb old_bal amount) insufficient_balance
    let new_bal = old_bal - amount
    if new_bal == 0
        then store (λ s. mu.remove s (balance_key addr)) 0
        else store (set_balance addr new_bal) new_bal
