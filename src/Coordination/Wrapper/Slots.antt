-- ===== src/Coordination/Wrapper/Slots.antt =====
-- The keys of storage_wrapper.go, by what is kept under them.
use aristo.Prelude.{
  ◌≡◌, ◌↔◌, ap, sym, ◌∙◌, inl, inr, ◌++◌, Bool, true, false, Bytes, same, same_iff, Bool-cases,
  arith,
}
use aristo.Coordination.Wrapper.{
  channel_prefix, worker_prefix, region_prefix, tee_prefix, metrics_prefix, state_key,
}

-- A channel is named by its channel key.
pub data Slot : Type 0 where
  channel_slot worker_slot region_slot pair_slot metrics_slot : Bytes → Slot
  state_slot : Slot

abbrev pub slot_key : Slot → Bytes
slot_key (channel_slot k) = channel_prefix ++ k
slot_key (worker_slot id) = worker_prefix ++ id
slot_key (region_slot id) = region_prefix ++ id
slot_key (pair_slot id) = tee_prefix ++ id
slot_key (metrics_slot id) = metrics_prefix ++ id
slot_key state_slot = state_key

pub slot_key-injective : (a b : Slot) → slot_key a ≡ slot_key b → a ≡ b
slot_key-injective (channel_slot a) (channel_slot b) e = ground arith
slot_key-injective (worker_slot a) (worker_slot b) e = ground arith
slot_key-injective (region_slot a) (region_slot b) e = ground arith
slot_key-injective (pair_slot a) (pair_slot b) e = ground arith
slot_key-injective (metrics_slot a) (metrics_slot b) e = ground arith
slot_key-injective state_slot state_slot e = ground arith
slot_key-injective a b e = ground arith

abbrev pub same_slot : Slot → Slot → Bool
same_slot (channel_slot a) (channel_slot b) = same a b
same_slot (worker_slot a) (worker_slot b) = same a b
same_slot (region_slot a) (region_slot b) = same a b
same_slot (pair_slot a) (pair_slot b) = same a b
same_slot (metrics_slot a) (metrics_slot b) = same a b
same_slot state_slot state_slot = true
same_slot a b = false

same_slot_iff : (a b : Slot) → (same_slot a b ≡ true) ↔ (a ≡ b)
same_slot_iff (channel_slot a) (channel_slot b) = ground (arith, same_iff a b)
same_slot_iff (worker_slot a) (worker_slot b) = ground (arith, same_iff a b)
same_slot_iff (region_slot a) (region_slot b) = ground (arith, same_iff a b)
same_slot_iff (pair_slot a) (pair_slot b) = ground (arith, same_iff a b)
same_slot_iff (metrics_slot a) (metrics_slot b) = ground (arith, same_iff a b)
same_slot_iff state_slot state_slot = ground arith
same_slot_iff a b = ground arith

pub same-slot_key : (a b : Slot) → same (slot_key a) (slot_key b) ≡ same_slot a b
same-slot_key a b = elim (Bool-cases (same_slot a b)) [
  | inl e ↦ (same_iff (slot_key a) (slot_key b)).1 (ap slot_key ((same_slot_iff a b).0 e)) ∙ sym e
  | inr e ↦ elim (Bool-cases (same (slot_key a) (slot_key b))) [
    | inl f ↦
        let g =
          (same_slot_iff a b).1
            (slot_key-injective a b ((same_iff (slot_key a) (slot_key b)).0 f)) in
        f ∙ sym g
    | inr f ↦ f ∙ sym e
  ]
]
