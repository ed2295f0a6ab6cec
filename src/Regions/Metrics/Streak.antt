-- ===== src/Regions/Metrics/Streak.antt =====
-- What the metrics of a pair keep of its tasks, and what becomes of a pair that failed.
use aristo.Prelude.{
  ℕ, suc, ◌+◌, ◌%◌, ◌<◌, ◌≤◌, ◌≡◌, refl, ap, [], ◌∷◌, List, Bool, true, false, text, same, leb,
  length, ◌∙◌, ◌&&◌, ◌||◌, arith, if◌then◌else◌,
}
use aristo.Prelude.Floats.{Floats}
use aristo.Storage.Words.{u64_mod}
use aristo.Regions.Metrics.{
  TeePairMetrics, PairThresholds, update_metrics, reset_metrics, is_healthy,
}

pub record Outcome : Type 0 where
  pub success : Bool
  pub duration : ℕ
  pub now : ℕ

-- How many tasks failed.
unfoldable pub failures : List Outcome → ℕ
failures [] = 0
failures (o ∷ os) = if o.success then failures os else suc (failures os)

-- How many tasks failed since the last one that succeeded; the latest task is in front.
unfoldable pub streak : List Outcome → ℕ
streak [] = 0
streak (o ∷ os) = if o.success then 0 else suc (streak os)

-- Every task of the list succeeded.
unfoldable pub all_succeed : List Outcome → Bool
all_succeed [] = true
all_succeed (o ∷ os) = o.success && all_succeed os

failures≤length : (os : List Outcome) → failures os ≤ length os
unfolding failures
failures≤length [] = omega arith
failures≤length (o ∷ os) = let h = failures≤length os in ground arith

streak≤failures : (os : List Outcome) → streak os ≤ failures os
unfolding failures streak
streak≤failures [] = omega arith
streak≤failures (o ∷ os) = let h = streak≤failures os in ground arith

both_true : (a b : Bool) → (a && b) ≡ true → (a ≡ true) × (b ≡ true)
both_true true b h = (refl, h)
both_true false b h = ground arith

same-failed :
    (many bad : Bool)
    → same
        (if many then text "failed" else (if bad then text "degraded" else text "active"))
        (text "failed")
      ≡ many
unfolding same
same-failed true bad = refl
same-failed false true = refl
same-failed false false = refl

module _ {F : Type 0} (floats : Floats F) where
  -- The metrics after the tasks, of which the latest is in front.
  unfoldable pub after : TeePairMetrics F → List Outcome → TeePairMetrics F
  unfolding update_metrics
  after m [] = m
  after m (o ∷ os) = update_metrics floats o.success o.duration o.now (after m os)

  pub record Keeps (os : List Outcome) (m : TeePairMetrics F) : Type 0 where
    pub processed : m.tasks_processed ≡ length os
    pub failed : m.failed_tasks ≡ failures os
    pub consecutive : m.consecutive_errors ≡ streak os
    pub is_failed : same m.status (text "failed") ≡ leb 3 (streak os)

  update-Keeps :
      (success : Bool) (duration now : ℕ) (os : List Outcome) (m : TeePairMetrics F)
      → length os + 1 < u64_mod
      → Keeps os m
      → Keeps
          (record { success = success; duration = duration; now = now } ∷ os)
          (update_metrics floats success duration now m)
  unfolding update_metrics failures streak
  update-Keeps true duration now os m h k = record {
    processed = omega (arith, k.processed);
    failed = k.failed;
    consecutive = refl;
    is_failed = same-failed false _;
  }
  update-Keeps false duration now os m h k =
      let f = failures≤length os in
      let s = streak≤failures os in
      let c : (m.consecutive_errors + 1) % u64_mod ≡ suc (streak os) =
        omega (arith, k.consecutive) in
      record {
        processed = omega (arith, k.processed);
        failed = omega (arith, k.failed);
        consecutive = c;
        is_failed = same-failed (leb 3 ((m.consecutive_errors + 1) % u64_mod)) _ ∙ ap (leb 3) c;
      }

  -- After a reset and fewer than 2^64 tasks, the metrics of a pair hold the number of the tasks,
  -- of those that failed and of those that failed since the last success, and the status is
  -- failed exactly where three or more failed since then.
  pub after-Keeps :
      (m : TeePairMetrics F) (os : List Outcome)
      → length os < u64_mod
      → Keeps os (after (reset_metrics floats m) os)
  unfolding after reset_metrics failures streak
  after-Keeps m [] h = record {
    processed = refl;
    failed = refl;
    consecutive = refl;
    is_failed = same-failed false false;
  }
  after-Keeps m (o ∷ os) h =
      update-Keeps o.success o.duration o.now os (after (reset_metrics floats m) os) (omega arith)
        (after-Keeps m os (omega arith))

  error_rate-success :
      (success : Bool) (duration now : ℕ) (m : TeePairMetrics F)
      → success ≡ true
      → (update_metrics floats success duration now m).error_rate ≡ m.error_rate
  unfolding update_metrics
  error_rate-success true duration now m h = refl
  error_rate-success false duration now m h = ground arith

  error_rate-after :
      (m : TeePairMetrics F) (os : List Outcome)
      → all_succeed os ≡ true
      → (after m os).error_rate ≡ m.error_rate
  unfolding after all_succeed
  error_rate-after m [] h = refl
  error_rate-after m (o ∷ os) h =
      let (first, rest) = both_true o.success (all_succeed os) h in
      error_rate-success o.success o.duration o.now (after m os) first ∙ error_rate-after m os rest

  status-degraded :
      (many low : Bool)
      → same
          (if many then text "failed" else (if true || low then text "degraded" else text "active"))
          (text "active")
        ≡ false
  unfolding same
  status-degraded true low = refl
  status-degraded false low = refl

  is_healthy-update_metrics :
      (limits : PairThresholds F) (success : Bool) (duration now : ℕ) (m : TeePairMetrics F)
      → floats.lt floats.tenth (update_metrics floats success duration now m).error_rate ≡ true
      → is_healthy floats limits (update_metrics floats success duration now m) ≡ false
  unfolding is_healthy update_metrics
  is_healthy-update_metrics limits success duration now m high = rw (high, status-degraded _ _) refl

  -- A pair with an error rate above a tenth is not healthy after one or more tasks that all
  -- succeeded, however many and whatever the thresholds.
  pub is_healthy-after :
      (limits : PairThresholds F) (m : TeePairMetrics F) (o : Outcome) (os : List Outcome)
      → all_succeed (o ∷ os) ≡ true
      → floats.lt floats.tenth m.error_rate ≡ true
      → is_healthy floats limits (after m (o ∷ os)) ≡ false
  unfolding after
  is_healthy-after limits m o os h high =
      is_healthy-update_metrics limits o.success o.duration o.now (after m os)
        (ap (floats.lt floats.tenth) (error_rate-after m (o ∷ os) h) ∙ high)
