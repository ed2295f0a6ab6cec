-- ===== src/Storage/RegionStates/Apart.antt =====
-- storage/region_state_store.go: what is saved under one name is not read under the empty one.
use aristo.Prelude.{
  ◌≡◌, refl, ap, ◌∙◌, [], ◌∷◌, ◌++◌, true, false, Bytes, text, same, same→eq, then_try, Bool-cases,
  Result-cases, inl, inr,
}
use aristo.Prelude.Split.{slash}
use aristo.Prelude.Success.{try-ok}
use aristo.Storage.State.{Mutable, IsMutable}
use aristo.Storage.Codec.{Codec}
use aristo.Storage.Keys.{make_region_key}
use aristo.Regions.Health.Unread.{is_name, IsStateStore}
use aristo.Storage.RegionStates.{
  RegionCodecs, config_key_of, state_key_of, metrics_key_of, insert_json, read_json, get_tee_state,
  save_tee_state, save_metrics, set_region_config, region_state_store,
}

is_name-append : (xs ys : Bytes) → is_name ys ≡ true → is_name (xs ++ ys) ≡ true
is_name-append [] ys h = h
is_name-append (x ∷ []) [] h = cc
is_name-append (x ∷ []) (y ∷ ys) h = h
is_name-append (x ∷ z ∷ xs) ys h = is_name-append (z ∷ xs) ys h

slash_last : (xs : Bytes) → is_name (xs ++ slash ∷ []) ≡ false
slash_last [] = refl
slash_last (x ∷ []) = refl
slash_last (x ∷ z ∷ xs) = slash_last (z ∷ xs)

state_key_of-is_name : (r p : Bytes) → is_name p ≡ true → is_name (state_key_of r p) ≡ true
unfolding make_region_key
state_key_of-is_name r p h =
    is_name-append (text "state" ++ slash ∷ []) (r ++ slash ∷ p)
      (is_name-append r (slash ∷ p) (is_name-append (slash ∷ []) p h))

state_key_of-empty : (region : Bytes) → is_name (state_key_of region []) ≡ false
unfolding make_region_key
state_key_of-empty region = slash_last (text "state" ++ slash ∷ region)

state_key_of-apart :
    (r p region : Bytes)
    → is_name p ≡ true
    → same (state_key_of r p) (state_key_of region []) ≡ false
state_key_of-apart r p region h =
    elim (Bool-cases (same (state_key_of r p) (state_key_of region []))) [
      | inl e ↦
          let k = ap is_name (same→eq (state_key_of r p) (state_key_of region []) e) in
          let named = state_key_of-is_name r p h in let empty = state_key_of-empty region in cc
      | inr e ↦ e
    ]

module _ {S F : Type 0} (mu : Mutable S) (laws : IsMutable mu) (codecs : RegionCodecs F) where
  insert_json-elsewhere :
      {A : Type 0} (codec : Codec A) (k j : Bytes) (a : A) (s : S)
      → same k j ≡ false
      → mu.get_value (insert_json mu codecs codec k a s).1 j ≡ mu.get_value s j
  unfolding insert_json
  insert_json-elsewhere codec k j a s other =
      elim (Result-cases (then_try (codec.marshal a) (mu.insert s k))) [
        | inl (t, e) ↦
            let (b, (encoded, inserted)) = try-ok (codec.marshal a) (mu.insert s k) t e in
            rw e (laws.get-insert s t k b j inserted ∙ rw other refl)
        | inr (inl (x, e)) ↦ rw e refl
        | inr (inr (x, e)) ↦ rw e refl
      ]

  pub region_state_store-IsStateStore : IsStateStore (region_state_store mu codecs)
  unfolding region_state_store set_region_config save_tee_state get_tee_state save_metrics read_json
      same make_region_key
  region_state_store-IsStateStore = record {
    saved_elsewhere = λ r p region st s named.
        ap (λ x. then_try x codecs.state.unmarshal)
          (insert_json-elsewhere codecs.state (state_key_of r p) (state_key_of region []) st s
            (state_key_of-apart r p region named));
    config_apart = λ r region c s.
        ap (λ x. then_try x codecs.state.unmarshal)
          (insert_json-elsewhere codecs.config (config_key_of r) (state_key_of region []) c s refl);
    metrics_apart = λ r p region m s.
        ap (λ x. then_try x codecs.state.unmarshal)
          (insert_json-elsewhere codecs.metrics (metrics_key_of r p) (state_key_of region []) m s
            refl);
  }
