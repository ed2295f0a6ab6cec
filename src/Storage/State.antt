-- ===== src/Storage/State.antt =====
-- hypersdk's `state.Mutable`, through which the program reads and writes the chain's state. The
-- package is not part of the repository, so a state is a parameter: its operations are a record
-- over an abstract type of states, and what the program relies on is `IsMutable`.
use aristo.Prelude.{
  Bytes, ◌≡◌, refl, Bool, true, false, Option, none, some, Result, ok, err, Error, db_not_found,
  same, arith, if◌then◌else◌,
}
use aristo.Prelude.Dict
use aristo.Prelude.Dict.{Dict}

pub record Mutable (S : Type 0) : Type 0 where
  pub get_value : S → Bytes → Result Bytes
  pub insert : S → Bytes → Bytes → Result S
  pub remove : S → Bytes → Result S

-- What the interface documents: a read sees the last write of its key, and an absent key reads as
-- `database.ErrNotFound`.
pub record IsMutable {S : Type 0} (mu : Mutable S) : Type 0 where
  pub get-insert :
      (s t : S) (k v j : Bytes)
      → mu.insert s k v ≡ ok t
      → mu.get_value t j ≡ (if same k j then ok v else mu.get_value s j)
  pub get-remove :
      (s t : S) (k j : Bytes)
      → mu.remove s k ≡ ok t
      → mu.get_value t j ≡ (if same k j then err db_not_found else mu.get_value s j)

-- A state that refuses no write.
pub record IsWritable {S : Type 0} (mu : Mutable S) : Type 0 where
  pub insert_total : (s : S) (k v : Bytes) → (t : S) × (mu.insert s k v ≡ ok t)
  pub remove_total : (s : S) (k : Bytes) → (t : S) × (mu.remove s k ≡ ok t)

abbrev pub or_not_found : Option Bytes → Result Bytes
or_not_found none = err db_not_found
or_not_found (some v) = ok v

-- A state in memory, on which the examples run.
abbrev pub memory : Mutable (Dict Bytes)
memory = record {
  get_value = λ s k. or_not_found (Dict.lookup k s);
  insert = λ s k v. ok (Dict.insert k v s);
  remove = λ s k. ok (Dict.remove k s);
}

or_not_found-if :
    (b : Bool) (o p : Option Bytes)
    → or_not_found (if b then o else p) ≡ (if b then or_not_found o else or_not_found p)
or_not_found-if true o p = refl
or_not_found-if false o p = refl

memory-get-insert :
    (s t : Dict Bytes) (k v j : Bytes)
    → memory.insert s k v ≡ ok t
    → memory.get_value t j ≡ (if same k j then ok v else memory.get_value s j)
memory-get-insert s t k v j e =
    ground
      (arith, Dict.lookup-insert k j v s, or_not_found-if (same k j) (some v) (Dict.lookup j s))

memory-get-remove :
    (s t : Dict Bytes) (k j : Bytes)
    → memory.remove s k ≡ ok t
    → memory.get_value t j ≡ (if same k j then err db_not_found else memory.get_value s j)
memory-get-remove s t k j e =
    ground (arith, Dict.lookup-remove k j s, or_not_found-if (same k j) none (Dict.lookup j s))

pub memory-IsMutable : IsMutable memory
memory-IsMutable = record { get-insert = memory-get-insert; get-remove = memory-get-remove }

pub memory-IsWritable : IsWritable memory
memory-IsWritable = record {
  insert_total = λ s k v. (Dict.insert k v s, refl);
  remove_total = λ s k. (Dict.remove k s, refl);
}

-- The test `errors.Is(err, database.ErrNotFound)`.
unfoldable pub is_db_not_found : Error → Bool
is_db_not_found db_not_found = true
is_db_not_found _ = false
