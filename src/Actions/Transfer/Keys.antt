-- ===== src/Actions/Transfer/Keys.antt =====
-- The keys that a transfer declares are the only ones that it writes.
use aristo.Prelude.{◌≡◌, refl, false, none, Bytes, Result, same, arith}
use aristo.Prelude.Dict
use aristo.Prelude.Preserves.{Preserves, preserves_rules}
use aristo.Storage.State.{Mutable, IsMutable}
use aristo.Storage.Balance.{balance_key, sub_balance, add_balance}
use aristo.Storage.Balance.Frame.{Reads, add_balance-Reads, sub_balance-Reads}
use aristo.Actions.Transfer.{Transfer, execute, state_keys}

module _ {S : Type 0} (mu : Mutable S) (laws : IsMutable mu) (string : Bytes → Bytes)
    {Permission : Type 0} (read_write all : Permission) where
  undeclared-same :
      (tx : Transfer) (actor k : Bytes)
      → Dict.lookup k (state_keys mu string read_write all tx actor) ≡ none
      → (same (balance_key mu string tx.to) k ≡ false)
        × (same (balance_key mu string actor) k ≡ false)
  unfolding state_keys
  undeclared-same tx actor k = rw (Dict.lookup-insert, Dict.lookup-insert) (λ h. ground arith)

  execute-Reads :
      (tx : Transfer) (actor k : Bytes) (was : Result Bytes)
      → Preserves (Reads mu k was) (sub_balance mu string actor tx.value)
      → Preserves (Reads mu k was) (add_balance mu string tx.to tx.value)
      → Preserves (Reads mu k was) (execute mu string tx actor)
  unfolding execute
  execute-Reads tx actor k was debit credit = search preserves_rules

  -- A transfer, whatever its result, changes no key that is not among the keys it declares.
  pub execute-state_keys :
      (tx : Transfer) (actor k : Bytes) (s : S)
      → Dict.lookup k (state_keys mu string read_write all tx actor) ≡ none
      → mu.get_value (execute mu string tx actor s).1 k ≡ mu.get_value s k
  execute-state_keys tx actor k s undeclared =
      let (receiver, sender) = undeclared-same tx actor k undeclared in
      let debit = sub_balance-Reads mu laws string k actor sender (mu.get_value s k) tx.value in
      let credit = add_balance-Reads mu laws string k tx.to receiver (mu.get_value s k) tx.value in
      (execute-Reads tx actor k (mu.get_value s k) debit credit).step s refl
