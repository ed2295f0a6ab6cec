-- ===== src/Examples/Ledger.antt =====
-- Balances, fees and transfers on a ledger in memory with two accounts.
use aristo.Prelude.{
  ℕ, ◌≡◌, ◌≢◌, refl, true, false, [], ◌∷◌, Bytes, text, ok, err, insufficient_balance,
  balance_overflow, same, arith, if◌then◌else◌, none,
}
use aristo.Prelude.Dict
use aristo.Prelude.Dict.{Dict}
use aristo.Storage.State.{memory, memory-IsMutable, memory-IsWritable}
use aristo.Storage.Words.{put_u64, get_u64}
use aristo.Storage.Balance.{balance_key, get_balance, read_balance}
use aristo.Storage.Fees.{deduct, create_balance_key}
use aristo.Storage.Fees.Laws.{deduct_all}
use aristo.Actions.Transfer.{Transfer, execute, state_keys}
use aristo.Actions.Transfer.Ledger.{execute_refused, execute_exact, execute_overflow}
use aristo.Actions.Transfer.Keys.{execute-state_keys}

-- The text of an address: a star and its bytes.
abbrev star : Bytes → Bytes
star a = 42 ∷ a

star-injective : (a b : Bytes) → star a ≡ star b → a ≡ b
star-injective a b e = ground arith

abbrev alice : Bytes
alice = text "alice"

abbrev bob : Bytes
bob = text "bob"

abbrev carol : Bytes
carol = text "carol"

abbrev nearly_full : ℕ
nearly_full = 18446744073709551610

abbrev ledger : Dict Bytes
ledger =
    (balance_key memory star alice, put_u64 100)
    ∷ (balance_key memory star bob, put_u64 5)
    ∷ (balance_key memory star carol, put_u64 nearly_full)
    ∷ []

alice_has : get_balance memory star alice ledger ≡ ok 100
unfolding get_balance read_balance put_u64 get_u64 same Dict.lookup
alice_has = refl

bob_has : get_balance memory star bob ledger ≡ ok 5
unfolding get_balance read_balance put_u64 get_u64 same Dict.lookup
bob_has = refl

carol_has : get_balance memory star carol ledger ≡ ok nearly_full
unfolding get_balance read_balance put_u64 get_u64 same Dict.lookup
carol_has = refl

abbrev payment : Bytes → ℕ → Transfer
payment to value = record { to = to; value = value; memo = text "rent" }

alice_is_not_bob : alice ≢ bob
alice_is_not_bob e = ground arith

alice_is_not_carol : alice ≢ carol
alice_is_not_carol e = ground arith

execute_exact_example :
    (t : Dict Bytes) × (execute memory star (payment bob 30) alice ledger
      ≡ (ok (record { sender_balance = 70; receiver_balance = 35 }), t))
    × ((j : Bytes)
        → get_balance memory star j t ≡ (
            if same alice j
            then ok 70
            else if same bob j
            then ok 35
            else get_balance memory star j ledger))
execute_exact_example =
    execute_exact memory memory-IsMutable star star-injective memory-IsWritable (payment bob 30)
      alice 100 5 ledger alice_has bob_has alice_is_not_bob (λ e. ground arith) (omega arith)
      (omega arith) (omega arith) (omega arith)

execute_refused_example :
    execute memory star (payment bob 101) alice ledger ≡ (err insufficient_balance, ledger)
execute_refused_example =
    execute_refused memory memory-IsMutable star star-injective (payment bob 101) alice 100 ledger
      alice_has refl

execute_overflow_example :
    (t : Dict Bytes) × (execute memory star (payment carol 30) alice ledger
      ≡ (err balance_overflow, t))
    × (get_balance memory star alice t ≡ ok 70)
execute_overflow_example =
    execute_overflow memory memory-IsMutable star star-injective memory-IsWritable
      (payment carol 30) alice 100 nearly_full ledger alice_has carol_has alice_is_not_carol
      (λ e. ground arith) (omega arith) (omega arith) (omega arith) (omega arith) (omega arith)

deduct_whole :
    deduct memory star alice 100 ledger ≡ (ok tt, Dict.remove (create_balance_key alice) ledger)
unfolding deduct
deduct_whole = ground (arith, alice_has)

star-moves : star alice ≢ alice
star-moves e = ground arith

deduct_all_example :
    get_balance memory star alice (Dict.remove (create_balance_key alice) ledger) ≡ ok 100
deduct_all_example =
    deduct_all memory memory-IsMutable star star-injective alice 100 ledger
      (Dict.remove (create_balance_key alice) ledger) star-moves alice_has deduct_whole

undeclared :
    Dict.lookup
      (balance_key memory star carol)
      (state_keys memory star true false (payment bob 30) alice)
    ≡ none
unfolding state_keys Dict.lookup Dict.insert same
undeclared = refl

execute-state_keys_example :
    memory.get_value
      (execute memory star (payment bob 30) alice ledger).1
      (balance_key memory star carol)
    ≡ memory.get_value ledger (balance_key memory star carol)
execute-state_keys_example =
    execute-state_keys memory memory-IsMutable star true false (payment bob 30) alice
      (balance_key memory star carol) ledger undeclared
