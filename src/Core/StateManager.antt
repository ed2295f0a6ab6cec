-- ===== src/Core/StateManager.antt =====
-- interfaces.go: what an action asks of the state manager. `S` is the state that it keeps, `Region` a
-- decoded region.
use aristo.Prelude.{Bool, Bytes, Option, Act}
use aristo.Core.Types.{ObjectState, Event}

pub record StateManager (S Region : Type 0) : Type 0 where
  pub get_object : Bytes → Bytes → Act S (Option ObjectState)
  pub set_object : Bytes → ObjectState → Act S (Unit {0})
  pub object_exists : Bytes → Bytes → Act S Bool
  pub set_event : Bytes → Event → Bytes → Act S (Unit {0})
  pub get_region : Bytes → Act S (Option Region)
