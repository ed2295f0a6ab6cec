-- ===== src/Examples/Keys.antt =====
-- Keys of a region, of channels and of events.
use aristo.Prelude.{◌≡◌, refl, arith, Bytes, text, ◌⊎◌}
use aristo.Storage.Keys.{object_prefix}
use aristo.Storage.Keys.Layout.{make_key-injective}
use aristo.Coordination.Channel.Naming.{make_channel_key_comm, make_channel_key-injective}

abbrev east : Bytes
east = text "east"

abbrev door : Bytes
door = text "door"

make_key-injective_example : (east ≡ east) × (object_prefix ≡ object_prefix) × (door ≡ door)
make_key-injective_example =
    make_key-injective east east door door 4 4 (refl, refl, omega arith) (refl, refl, omega arith)
      refl

make_channel_key-injective_example :
    ((east ≡ door) × (door ≡ east)) ⊎ ((east ≡ east) × (door ≡ door))
make_channel_key-injective_example =
    make_channel_key-injective east door door east (refl, refl) (refl, refl)
      (make_channel_key_comm east door)
