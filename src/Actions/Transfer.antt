-- ===== src/Actions/Transfer.antt =====
-- actions/transfer.go: the transfer of an amount between two accounts.
pub mod Ledger
pub mod Keys
use aristo.Prelude.{
  ℕ, [], Bytes, Result, Act, pure, ◌>>=◌, ◌>>◌, reject_if, output_value_zero, output_memo_too_large,
  length, ltb, ◌==◌,
}
use aristo.Prelude.Dict
use aristo.Prelude.Dict.{Dict}
use aristo.Storage.State.{Mutable}
use aristo.Storage.Balance.{balance_key, sub_balance, add_balance}

abbrev pub max_memo_size : ℕ
max_memo_size = 256

pub record Transfer : Type 0 where
  pub to : Bytes
  pub value : ℕ
  pub memo : Bytes

pub record TransferResult : Type 0 where
  pub sender_balance : ℕ
  pub receiver_balance : ℕ

module _ {S : Type 0} (mu : Mutable S) (string : Bytes → Bytes) where
  -- `state.Keys`; the permissions are hypersdk's. A key written twice keeps the later permission.
  unfoldable pub state_keys :
      {Permission : Type 0} → Permission → Permission → Transfer → Bytes → Dict Permission
  state_keys read_write all tx actor =
      Dict.insert (balance_key mu string tx.to) all
        (Dict.insert (balance_key mu string actor) read_write [])

  unfoldable pub execute : Transfer → Bytes → Act S TransferResult
  execute tx actor = do
    reject_if (tx.value == 0) output_value_zero
    reject_if (ltb max_memo_size (length tx.memo)) output_memo_too_large
    sender_balance ← sub_balance mu string actor tx.value
    receiver_balance ← add_balance mu string tx.to tx.value
    pure (record { sender_balance = sender_balance; receiver_balance = receiver_balance })
