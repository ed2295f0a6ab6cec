-- ===== src/Storage/Manager/Refinement.antt =====
-- storage/state_manager.go: the state manager as a map of objects, by region and id, whatever else is
-- written through it.
use aristo.Prelude.{
  ◌≡◌, ◌≢◌, ◌↔◌, refl, sym, ◌∙◌, ap, inl, inr, ◌&&◌, [], ◌∷◌, List, true, false, Bytes, same,
  same_iff, same_refl, Option, some, Result, ok, err, panic, Act, arith, Bool-cases, All,
  if◌then◌else◌,
}
use aristo.Prelude.Split.{has_slash}
use aristo.Core.Types.{ObjectState, Event}
use aristo.Storage.Codec.{Codec, ObjectMap, IsObjectCodec}
use aristo.Storage.Stores.{MerkleDb, IsMerkleDb, TeeLink, World, make_regional_key}
use aristo.Storage.Stores.Outcome.{Stored}
use aristo.Storage.Keys.{region_key}
use aristo.Storage.Manager.{
  object_key, event_key, object_map, put_encoded, stored_object, set_object, set_event, set_region,
}
use aristo.Storage.Manager.Writes.{
  kept, put_encoded-Stored, read_object-kept, stored_object-reads, stored_object-unread,
  stored_object-elsewhere, place,
}
use aristo.Storage.Manager.Keys.{object_key-injective, object_key-event, object_key-region}

-- A call that writes.
pub data Write (R : Type 0) : Type 0 where
  write_object : Bytes → ObjectState → Write R
  write_event : Bytes → Event → Bytes → Write R
  write_region : Bytes → Option R → Write R

abbrev pub region_of : {R : Type 0} → Write R → Bytes
region_of (write_object id obj) = obj.region_id
region_of (write_event id event region) = region
region_of (write_region region r) = region

-- The object of a region under an id after a write with this result.
abbrev pub applies :
    {R : Type 0}
    → Write R
    → Bytes
    → Bytes
    → Result (Unit {0})
    → Result (Option ObjectState)
    → Result (Option ObjectState)
applies (write_object id obj) region j (ok u) was =
    if same obj.region_id region && same id j then ok (some (kept obj)) else was
applies (write_object id obj) region j (err e) was = was
applies (write_object id obj) region j (panic c) was = was
applies (write_event id event r) region j result was = was
applies (write_region r x) region j result was = was

applies-refused :
    {R : Type 0} (x : Write R) (region j : Bytes) (r : Result (Unit {0}))
    (was : Result (Option ObjectState))
    → ((u : Unit {0}) → r ≢ ok u)
    → applies x region j r was ≡ was
applies-refused (write_object id obj) region j (ok u) was h = absurd (h u refl)
applies-refused (write_object id obj) region j (err e) was h = refl
applies-refused (write_object id obj) region j (panic c) was h = refl
applies-refused (write_event id event r) region j result was h = refl
applies-refused (write_region r x) region j result was h = refl

both_same : (a b c d : Bytes) → ((same a b && same c d) ≡ true) ↔ ((a ≡ b) × (c ≡ d))
both_same a b c d = ground (arith, same_iff a b, same_iff c d)

module _ {D W C : Type 0} (db : MerkleDb D) (laws : IsMerkleDb db) (link : TeeLink W C) where
  -- The call that a write stands for.
  module _ {R : Type 0} (objects : Codec ObjectMap) (events : Codec Event)
      (regions : Codec (Option R)) (codec_laws : IsObjectCodec objects) where
    unfoldable pub exec : Write R → Act (World D W) (Unit {0})
    exec (write_object id obj) = set_object db link objects id obj
    exec (write_event id event region) = set_event db link events id event region
    exec (write_region region r) = set_region db link regions region r

    pub run : List (Write R) → World D W → World D W
    run [] w = w
    run (x ∷ xs) w = run xs (exec x w).1

    -- The last write of the object that succeeded.
    pub replay :
        List (Write R)
        → World D W
        → Bytes
        → Bytes
        → Result (Option ObjectState)
        → Result (Option ObjectState)
    replay [] w region id was = was
    replay (x ∷ xs) w region id was =
        replay xs (exec x w).1 region id (applies x region id (exec x w).0 was)

    object-step :
        (id : Bytes) (obj : ObjectState) (w : World D W) (region j : Bytes)
        → has_slash obj.region_id ≡ false
        → has_slash region ≡ false
        → (x : Result (Unit {0}) × World D W)
        → Stored db laws link
            (place db laws link objects codec_laws obj.region_id id)
            (λ v. objects.marshal (some (object_map obj.code obj.storage obj.status)) ≡ ok v)
            w.merkle
            x
        → stored_object db link objects j region x.1
          ≡ applies {R = R}
              (write_object id obj)
              region
              j
              x.0
              (stored_object db link objects j region w)
    unfolding Stored place
    object-step id obj w region j h k (r, t) (inr (e, reads)) =
        stored_object-unread db laws link objects codec_laws region j t w
          (reads (place db laws link objects codec_laws region j))
        ∙ sym (
            applies-refused {R = R} (write_object id obj) region j r
              (stored_object db link objects j region w) e)
    object-step id obj w region j h k (r, t) (inl (u, (e, (o, (p, reads))))) =
        elim (Bool-cases (same obj.region_id region && same id j)) [
          | inl both ↦ rw (e, both) (set_here both)
          | inr other ↦
              rw (e, other)
                (stored_object-elsewhere db laws link objects codec_laws
                  (place db laws link objects codec_laws obj.region_id id) region j IsValue w (r, t)
                  (inl (u, (e, (o, (p, reads))))) (elsewhere other))
        ]
      where
        IsValue : Bytes → Type 0
        IsValue v = objects.marshal (some (object_map obj.code obj.storage obj.status)) ≡ ok v

        itself : stored_object db link objects id obj.region_id t ≡ ok (some (kept obj))
        itself =
            stored_object-reads db laws link objects codec_laws obj.region_id id t (ok o) (
              reads (place db laws link objects codec_laws obj.region_id id)
              ∙ rw (same_refl (place db laws link objects codec_laws obj.region_id id)) refl)
            ∙ read_object-kept db laws link objects codec_laws obj o p

        set_here :
            (same obj.region_id region && same id j) ≡ true
            → stored_object db link objects j region t ≡ ok (some (kept obj))
        set_here both =
            let (er, ej) = (both_same obj.region_id region id j).0 both in
            sym (ap (λ x. stored_object db link objects j x t) er)
            ∙ sym (ap (λ y. stored_object db link objects y obj.region_id t) ej)
            ∙ itself

        elsewhere :
            (same obj.region_id region && same id j) ≡ false
            → place db laws link objects codec_laws obj.region_id id
              ≡ place db laws link objects codec_laws region j
            → ⊥
        elsewhere other e = absurd (
            ground (
              arith,
              other,
              (both_same obj.region_id region id j).1
                  (object_key-injective obj.region_id region id j h k e),
            ))

    pub step-object :
        (x : Write R) (w : World D W) (region id : Bytes)
        → has_slash (region_of x) ≡ false
        → has_slash region ≡ false
        → stored_object db link objects id region (exec x w).1
          ≡ applies x region id (exec x w).0 (stored_object db link objects id region w)
    unfolding exec set_object set_event set_region place
    step-object (write_object id obj) w region j h k =
        let m = some (object_map obj.code obj.storage obj.status) in
        let key = object_key obj.region_id id in
        object-step id obj w region j h k (put_encoded db link objects obj.region_id key m w)
          (put_encoded-Stored db laws link objects obj.region_id key m w)
    step-object (write_event id event r) w region j h k =
        stored_object-elsewhere db laws link objects codec_laws
          (make_regional_key r (event_key r id)) region j (λ v. events.marshal event ≡ ok v) w
          (put_encoded db link events r (event_key r id) event w)
          (put_encoded-Stored db laws link events r (event_key r id) event w)
          (object_key-event r region id j h k)
    step-object (write_region r x) w region j h k =
        stored_object-elsewhere db laws link objects codec_laws (make_regional_key r (region_key r))
          region j (λ v. regions.marshal x ≡ ok v) w
          (put_encoded db link regions r (region_key r) x w)
          (put_encoded-Stored db laws link regions r (region_key r) x w)
          (object_key-region r region j h k)

    -- The state manager is a map of objects by region and id. Over a database whose reads see
    -- the last write and whose root can be computed, and an encoding that reads back what it
    -- wrote: after any calls that set objects, events and regions, of regions without a slash,
    -- the stored object of a region and an id is the one that the last successful call for them
    -- set, without its events and its time of update; without such a call it is as before.
    pub run-replay :
        (xs : List (Write R)) (w : World D W) (region id : Bytes)
        → All (λ x. has_slash (region_of x) ≡ false) xs
        → has_slash region ≡ false
        → stored_object db link objects id region (run xs w)
          ≡ replay xs w region id (stored_object db link objects id region w)
    unfolding run replay
    run-replay [] w region id h k = refl
    run-replay (x ∷ xs) w region id (hx, hxs) k =
        rw (run-replay xs (exec x w).1 region id hxs k, step-object x w region id hx k) refl
