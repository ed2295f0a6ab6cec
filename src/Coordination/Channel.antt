-- ===== src/Coordination/Channel.antt =====
-- coordination/channel.go and the channel part of storage_wrapper.go: a secure channel between two
-- workers, and the key under which it is stored.
pub mod Naming
use aristo.Prelude.{
  ℕ, suc, ◌+◌, [], ◌∷◌, ◌++◌, List, Bool, true, false, Bytes, before, text, Option, none, some,
  Result, ok, err, panic, Act, length, ltb, if◌then◌else◌, then_try, coordination_timeout, Error,
}
use aristo.Coordination.Types.{SecureChannel}

abbrev pub channel_capacity : ℕ
channel_capacity = 100

unfoldable pub new_secure_channel : Bytes → Bytes → SecureChannel
new_secure_channel w1 w2 = record {
  worker1 = w1;
  worker2 = w2;
  key = [];
  encrypted = false;
  messages = [];
}

-- `key` is what crypto/rand returns.
unfoldable pub establish_secure : Result Bytes → SecureChannel → Result SecureChannel
establish_secure random c = then_try random λ key. ok (record c { key = key; encrypted = true })

-- The source leaves both of these to be written: they return the data.
unfoldable pub encrypt : Bytes → Bytes → Result Bytes
encrypt payload key = ok payload

unfoldable pub decrypt : Bytes → Bytes → Result Bytes
decrypt payload key = ok payload

abbrev pub put_message : SecureChannel → Bytes → Result (Unit {0}) × SecureChannel
put_message c payload =
    if ltb (length c.messages) channel_capacity
    then (ok tt, record c { messages = c.messages ++ payload ∷ [] })
    else (err coordination_timeout, c)

-- A full channel that nobody empties for five seconds is a timeout.
unfoldable pub send : Bytes → Act SecureChannel (Unit {0})
unfolding encrypt
send payload c =
    if c.encrypted
    then elim (encrypt payload c.key) [
      | ok p ↦ put_message c p
      | err e ↦ (err e, c)
      | panic x ↦ (panic x, c)
    ]
    else put_message c payload

abbrev pub opened : SecureChannel → Bytes → Result Bytes
opened c payload = if c.encrypted then decrypt payload c.key else ok payload

unfoldable pub receive : Act SecureChannel Bytes
unfolding decrypt
receive c = elim c.messages [
  | [] ↦ (err coordination_timeout, c)
  | payload ∷ rest ↦ (opened c payload, record c { messages = rest })
]

-- makeChannelKey: the two names in order, with a colon between them.
unfoldable pub make_channel_key : Bytes → Bytes → Bytes
make_channel_key worker1 worker2 =
    if before worker1 worker2 then worker1 ++ 58 ∷ worker2 else worker2 ++ 58 ∷ worker1
