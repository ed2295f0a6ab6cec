-- ===== src/Actions/Transfer/Ledger.antt =====
-- What a transfer does to the ledger, on every branch.
use aristo.Prelude.{
  ℕ, ◌+◌, ◌-◌, ◌≤◌, ◌<◌, ◌≡◌, ◌≢◌, true, Bytes, ok, err, balance_overflow, insufficient_balance,
  output_value_zero, output_memo_too_large, same, same_iff, same_refl, length, arith, if◌then◌else◌,
  ◌==◌, ◌||◌, ltb,
}
use aristo.Storage.State.{Mutable, IsMutable, IsWritable}
use aristo.Storage.Words.{u64_mod}
use aristo.Storage.Balance.{get_balance}
use aristo.Storage.Balance.Laws.{
  add_balance_overflow, add_balance_exact, sub_balance_insufficient, sub_balance_exact,
}
use aristo.Actions.Transfer.{Transfer, execute, max_memo_size}

module _ {S : Type 0} (mu : Mutable S) (laws : IsMutable mu) (string : Bytes → Bytes)
    (string-injective : (a b : Bytes) → string a ≡ string b → a ≡ b) where
  -- A transfer is refused, and nothing is written, where its value is zero, where its memo is
  -- longer than 256 bytes, or where the sender's balance is less than its value; the error is
  -- that of the first of these that holds.
  pub execute_refused :
      (tx : Transfer) (actor : Bytes) (b : ℕ) (s : S)
      → get_balance mu string actor s ≡ ok b
      → (tx.value == 0 || ltb max_memo_size (length tx.memo) || ltb b tx.value) ≡ true
      → execute mu string tx actor s ≡ (
        (if tx.value == 0
            then err output_value_zero
            else if ltb max_memo_size (length tx.memo)
            then err output_memo_too_large
            else err insufficient_balance),
        s,
      )
  unfolding execute
  execute_refused tx actor b s e refused =
      ground (arith, sub_balance_insufficient mu laws string string-injective actor b tx.value s e)

  module _ (writable : IsWritable mu) where
    -- Over a state that keeps its writes and refuses none, a transfer of a value that is not
    -- zero and that the sender covers, between two different accounts, with a memo of at most
    -- 256 bytes and no overflow at the receiver, succeeds: it returns the two new balances, the
    -- sender's is less and the receiver's more by the value, and every other account's is as
    -- before.
    pub execute_exact :
        (tx : Transfer) (actor : Bytes) (b c : ℕ) (s : S)
        → get_balance mu string actor s ≡ ok b
        → get_balance mu string tx.to s ≡ ok c
        → actor ≢ tx.to
        → tx.value ≢ 0
        → length tx.memo ≤ max_memo_size
        → tx.value ≤ b
        → b < u64_mod
        → c + tx.value < u64_mod
        → (t : S) × (execute mu string tx actor s
            ≡ (ok (record { sender_balance = b - tx.value; receiver_balance = c + tx.value }), t))
          × ((j : Bytes)
              → get_balance mu string j t ≡ (
                  if same actor j
                  then ok (b - tx.value)
                  else if same tx.to j
                  then ok (c + tx.value)
                  else get_balance mu string j s))
    unfolding execute
    execute_exact tx actor b c s hb hc distinct positive memo enough small fits =
        let (t, paid, debit) =
          sub_balance_exact mu laws string string-injective writable actor b tx.value s hb small
            enough in
        let (u, got, credit) =
          add_balance_exact mu laws string string-injective writable tx.to c tx.value t
            (ground (arith, debit tx.to, same_iff actor tx.to)) fits in
        (
          u,
          ground arith,
          λ j. ground (arith, credit j, debit j, same_iff tx.to j, same_iff actor j),
        )

    -- A transfer from an account to itself that would otherwise be accepted succeeds, reports
    -- the balance without the value as the sender's and the old one as the receiver's, and
    -- changes no balance.
    pub execute_self :
        (tx : Transfer) (actor : Bytes) (b : ℕ) (s : S)
        → get_balance mu string actor s ≡ ok b
        → actor ≡ tx.to
        → tx.value ≢ 0
        → length tx.memo ≤ max_memo_size
        → tx.value ≤ b
        → b < u64_mod
        → (t : S) × (execute mu string tx actor s
            ≡ (ok (record { sender_balance = b - tx.value; receiver_balance = b }), t))
          × ((j : Bytes) → get_balance mu string j t ≡ get_balance mu string j s)
    unfolding execute
    execute_self tx actor b s hb itself positive memo enough small =
        let (t, paid, debit) =
          sub_balance_exact mu laws string string-injective writable actor b tx.value s hb small
            enough in
        let (u, got, credit) =
          add_balance_exact mu laws string string-injective writable tx.to (b - tx.value) tx.value t
            (ground (arith, debit tx.to, same_iff actor tx.to)) (omega arith) in
        (
          u,
          ground arith,
          λ j. ground (arith, credit j, debit j, same_iff tx.to j, same_iff actor j),
        )

    -- Where the receiver's balance would exceed 64 bits, a transfer that would otherwise be
    -- accepted reports an overflow, and in the state that it leaves the sender has already paid.
    pub execute_overflow :
        (tx : Transfer) (actor : Bytes) (b c : ℕ) (s : S)
        → get_balance mu string actor s ≡ ok b
        → get_balance mu string tx.to s ≡ ok c
        → actor ≢ tx.to
        → tx.value ≢ 0
        → length tx.memo ≤ max_memo_size
        → tx.value ≤ b
        → b < u64_mod
        → c < u64_mod
        → u64_mod ≤ c + tx.value
        → (t : S) × (execute mu string tx actor s ≡ (err balance_overflow, t))
          × (get_balance mu string actor t ≡ ok (b - tx.value))
    unfolding execute
    execute_overflow tx actor b c s hb hc distinct positive memo enough small small' over =
        let (t, paid, debit) =
          sub_balance_exact mu laws string string-injective writable actor b tx.value s hb small
            enough in
        let refused =
          add_balance_overflow mu laws string string-injective tx.to c tx.value t
            (ground (arith, debit tx.to, same_iff actor tx.to)) small' (omega arith) over in
        (t, ground arith, ground (arith, debit actor, same_refl actor))
