-- ===== src/Examples/Objects.antt =====
-- Objects, events and regions of a state manager whose database, codec and coordinator are in memory.
use aristo.Prelude.{
  ◌≡◌, ◌≢◌, ◌≤◌, refl, sym, ◌∙◌, ap, ◌&&◌, [], ◌∷◌, ◌++◌, List, Bool, true, false, Bytes, text,
  same, same_iff, Option, none, some, Result, ok, err, pure, arith, length, take, drop, outside,
  db_not_found, if◌then◌else◌,
}
use aristo.Prelude.Dict
use aristo.Prelude.Dict.{Dict}
use aristo.Core.Types.{ObjectState, Event, AttestationPair, TeeAttestation}
use aristo.Storage.Codec.{Codec, ObjectMap, IsObjectCodec, ascii_keys}
use aristo.Storage.Stores.{MerkleDb, IsMerkleDb, MerkleStore, TeeLink, World, or_nil}
use aristo.Storage.Manager.{object_map, stored_object, set_region}
use aristo.Core.StateManager.{StateManager}
use aristo.Actions.Shuttle.{CreateObject, CreateObjectResult, create_object, create_units}
use aristo.Actions.Shuttle.Guards.{create_object-bounds, create_object-validator}
use aristo.Vm.CodeValidator
use aristo.Storage.Manager
use aristo.Storage.Stores
use aristo.Storage.Keys
use aristo.Actions.Attestations
use aristo.Vm.CodeValidator.{new_code_validator, header_magic, wasm_magic}
use aristo.Storage.Manager.Refinement.{
  Write, write_object, write_event, write_region, run, replay, run-replay,
}

abbrev or_missing : Option Bytes → Result (Option Bytes)
or_missing none = err db_not_found
or_missing (some v) = ok (some v)

abbrev tree : MerkleDb (Dict Bytes)
tree = record {
  get = λ d k. or_missing (Dict.lookup k d);
  put = λ d k v. ok (Dict.insert k v d);
  delete = λ d k. ok (Dict.remove k d);
  merkle_root = λ d. ok [];
}

or_missing-if :
    (b : Bool) (o p : Option Bytes)
    → or_missing (if b then o else p) ≡ (if b then or_missing o else or_missing p)
or_missing-if true o p = refl
or_missing-if false o p = refl

tree-get-put :
    (d e : Dict Bytes) (k v : Bytes)
    → tree.put d k v ≡ ok e
    → (o : Option Bytes) × ((or_nil o ≡ v)
        × ((j : Bytes) → tree.get e j ≡ (if same k j then ok o else tree.get d j)))
tree-get-put d e k v h = (
  some v,
  (
    refl,
    λ j.
        ground
          (arith, Dict.lookup-insert k j v d, or_missing-if (same k j) (some v) (Dict.lookup j d)),
  ),
)

tree-IsMerkleDb : IsMerkleDb tree
tree-IsMerkleDb = record { get-put = tree-get-put; merkle_root_total = λ d. ([], refl) }

abbrev always : TeeLink (Unit {0}) Bytes
always = record {
  get_tee_pair = λ region w. ok (text "sgx", text "sev");
  get_secure_channel = λ a b. pure (a ++ b);
  marshal_message = λ a b v. ok v;
  send = λ channel v. pure tt;
}

-- The lengths of the first two fields in front of the three.
abbrev pack : Bytes → Bytes → Bytes → Bytes
pack code storage status = length code ∷ length storage ∷ (code ++ (storage ++ status))

abbrev unpack : Bytes → Result ObjectMap
unpack (n ∷ k ∷ rest) =
    ok (some (object_map (take n rest) (take k (drop n rest)) (drop k (drop n rest))))
unpack _ = err outside

abbrev pack_map : ObjectMap → Result Bytes
pack_map (some ((a, code) ∷ (b, storage) ∷ (c, status) ∷ [])) =
    if same a (text "code") && (same b (text "storage") && same c (text "status"))
    then ok (pack code storage status)
    else err outside
pack_map _ = err outside

abbrev three_fields : Codec ObjectMap
three_fields = record { marshal = pack_map; unmarshal = unpack }

take-append : (a b : Bytes) → take (length a) (a ++ b) ≡ a
take-append [] b = refl
take-append (x ∷ xs) b = ap (λ (l : Bytes). x ∷ l) (take-append xs b)

drop-append : (a b : Bytes) → drop (length a) (a ++ b) ≡ b
drop-append [] b = refl
drop-append (x ∷ xs) b = drop-append xs b

unpack-pack :
    (code storage status : Bytes)
    → unpack (pack code storage status) ≡ ok (some (object_map code storage status))
unpack-pack code storage status =
    rw
      (
        take-append code (storage ++ status),
        drop-append code (storage ++ status),
        take-append storage status,
        drop-append storage status,
      )
      refl

packed :
    (a b c x y z bytes : Bytes)
    → pack_map (some ((a, x) ∷ (b, y) ∷ (c, z) ∷ [])) ≡ ok bytes
    → (a ≡ text "code") × (b ≡ text "storage") × (c ≡ text "status") × (pack x y z ≡ bytes)
packed a b c x y z bytes e =
    ground
      (arith, same_iff a (text "code"), same_iff b (text "storage"), same_iff c (text "status"), e)

three_fields-read :
    (m : Dict Bytes) (bytes : Bytes)
    → ascii_keys m ≡ true
    → pack_map (some m) ≡ ok bytes
    → (n : Dict Bytes) × ((unpack bytes ≡ ok (some n))
        × ((k : Bytes) → Dict.lookup k n ≡ Dict.lookup k m))
three_fields-read [] bytes h e = cc
three_fields-read ((a, x) ∷ []) bytes h e = cc
three_fields-read ((a, x) ∷ (b, y) ∷ []) bytes h e = cc
three_fields-read ((a, x) ∷ (b, y) ∷ (c, z) ∷ []) bytes h e =
    let (ea, eb, ec, ep) = packed a b c x y z bytes e in
    (object_map x y z, (ap unpack (sym ep) ∙ unpack-pack x y z, λ k. rw (ea, eb, ec) refl))
three_fields-read ((a, x) ∷ (b, y) ∷ (c, z) ∷ rest ∷ more) bytes h e = cc

three_fields-IsObjectCodec : IsObjectCodec three_fields
three_fields-IsObjectCodec = record { unmarshal-marshal = three_fields-read }

-- Events and regions are stored as a byte.
abbrev no_events : Codec Event
no_events = record { marshal = λ e. ok (1 ∷ []); unmarshal = λ b. err outside }

abbrev one_region : Codec (Option (Unit {0}))
one_region = record { marshal = λ r. ok (1 ∷ []); unmarshal = λ b. ok (some tt) }

abbrev fresh : World (Dict Bytes) (Unit {0})
fresh = record { merkle = []; coordinator = tt; region_stores = [] }

abbrev counter : Bytes → ObjectState
counter code = record {
  code = code;
  storage = [];
  region_id = text "eu";
  events = text "e1" ∷ [];
  last_updated = some 7;
  status = text "active";
}

abbrev attested : Bytes → AttestationPair
attested measurement =
    let att : TeeAttestation = record {
      enclave_id = text "enclave";
      measurement = measurement;
      timestamp = 1000;
      payload = text "root";
      signature = text "s";
      region_proof = [];
    } in
    record { first = att; second = att }

abbrev ping : Event
ping = record {
  function_call = text "ping";
  parameters = [];
  attestations = attested [];
  timestamp = text "t";
  status = text "pending";
}

abbrev writes : List (Write (Unit {0}))
writes =
    write_object (text "a") (counter (text "v1"))
    ∷ write_event (text "a") ping (text "eu")
    ∷ write_object (text "a") (counter (text "v2"))
    ∷ write_region (text "eu") (some tt)
    ∷ []

run-replay_example :
    stored_object tree always three_fields (text "a") (text "eu") (
      run tree tree-IsMerkleDb always three_fields no_events one_region three_fields-IsObjectCodec
        writes fresh)
    ≡ replay tree tree-IsMerkleDb always three_fields no_events one_region
        three_fields-IsObjectCodec writes fresh
        (text "eu")
        (text "a")
        (stored_object tree always three_fields (text "a") (text "eu") fresh)
run-replay_example =
    run-replay tree tree-IsMerkleDb always three_fields no_events one_region
      three_fields-IsObjectCodec writes fresh (text "eu") (text "a")
      (refl, (refl, (refl, (refl, tt)))) refl

abbrev with_region : World (Dict Bytes) (Unit {0})
with_region = (set_region tree always one_region (text "eu") (some tt) fresh).1

abbrev creation : CreateObject
creation = record { id = text "a"; code = text "v1"; storage = []; region_id = text "eu" }

-- A state that is a state manager.
abbrev in_memory : Option (StateManager (World (Dict Bytes) (Unit {0})) (Unit {0}))
in_memory = some (record {
  get_object = Manager.get_object tree always three_fields;
  set_object = Manager.set_object tree always three_fields;
  object_exists = Manager.object_exists tree always;
  set_event = Manager.set_event tree always no_events;
  get_region = Manager.get_region tree always one_region;
})

abbrev created : CreateObjectResult
created = record { id = text "a"; region_id = text "eu" }

creation_succeeds :
    create_object in_memory creation 9 with_region
    ≡ (ok created, (create_object in_memory creation 9 with_region).1)
unfolding create_object Manager.get_region Stores.get_regional_store Dict.lookup set_region
    Stores.insert Dict.insert same Stores.get Stores.make_regional_key Keys.region_key
    Manager.object_exists Keys.make_region_key Attestations.validate_code Manager.set_object
creation_succeeds = refl

create_object-bounds_example :
    ((1 ≤ 1) × (1 ≤ 256))
    × ((1 ≤ 2) × (2 ≤ 1048576))
    × (0 ≤ 1048576)
    × (create_units creation ≤ 2049)
create_object-bounds_example =
    create_object-bounds in_memory creation 9 with_region created (ap (λ p. p.0) creation_succeeds)

-- A WebAssembly module behind a header.
abbrev module_code : Bytes
module_code = header_magic ++ (2 ∷ 1 ∷ 1 ∷ 0 ∷ 0 ∷ 0 ∷ 0 ∷ 0 ∷ wasm_magic)

abbrev deployment : CreateObject
deployment = record { id = text "a"; code = module_code; storage = []; region_id = text "eu" }

module_accepted : CodeValidator.validate_code (new_code_validator 1000) module_code ≡ ok tt
unfolding CodeValidator.validate_code new_code_validator same
module_accepted = refl

create_object-validator_example : (create_object in_memory deployment 9 with_region).0 ≢ ok created
create_object-validator_example =
    create_object-validator in_memory deployment 9 with_region created 1000 module_accepted
