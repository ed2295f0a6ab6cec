-- ===== src/Coordination/Tasks/Results.antt =====
-- The results that the workers of a running task report.
use aristo.Prelude.{
  ℕ, ◌+◌, ◌≡◌, [], ◌∷◌, ◌++◌, List, Bytes, same_refl, some, length, length-append, ==_iff, arith,
  ◌∙◌, ap,
}
use mathlib.Core.List.{append_assoc}
use aristo.Prelude.Dict
use aristo.Coordination.Types.{TaskInfo, running, complete}
use aristo.Coordination.State.{Coordinator}
use aristo.Coordination.Tasks.{set_task_result, result_on, with_result, is_running}

with_result_last :
    (now : ℕ) (result : Bytes) (info : TaskInfo)
    → length info.results + 1 ≡ length info.task.worker_ids
    → with_result now result info
      ≡ record info { results = info.results ++ result ∷ []; status = complete; end_time = now }
unfolding with_result
with_result_last now result info n = ground (
  arith,
  length-append info.results (result ∷ []),
  ==_iff (length (info.results ++ result ∷ [])) (length info.task.worker_ids),
)

with_result_more :
    (now k : ℕ) (result : Bytes) (info : TaskInfo)
    → length info.results + (k + 2) ≡ length info.task.worker_ids
    → with_result now result info ≡ record info { results = info.results ++ result ∷ [] }
unfolding with_result
with_result_more now k result info n = ground (
  arith,
  length-append info.results (result ∷ []),
  ==_iff (length (info.results ++ result ∷ [])) (length info.task.worker_ids),
)

module _ {S : Type 0} where
  unfoldable pub report_all : ℕ → Bytes → List Bytes → Coordinator S → Coordinator S
  unfolding set_task_result
  report_all now id [] c = c
  report_all now id (result ∷ results) c =
      report_all now id results (set_task_result now id result c).1

  lookup-set_task_result :
      (now : ℕ) (id result : Bytes) (info : TaskInfo) (c : Coordinator S)
      → Dict.lookup id c.task_status ≡ some info
      → info.status ≡ running
      → Dict.lookup id (set_task_result now id result c).1.task_status
        ≡ some (with_result now result info)
  unfolding set_task_result result_on
  lookup-set_task_result now id result info c e r = ground (
    arith,
    e,
    same_refl id,
    ap is_running r,
    Dict.lookup-insert id id (with_result now result info) c.task_status,
  )

  -- When the results that a running task still lacks, at least one, are reported one after
  -- another, the task is complete at the time of the report and holds all of them in their
  -- order.
  pub report_all_complete :
      (now : ℕ) (id result : Bytes) (results : List Bytes) (info : TaskInfo) (c : Coordinator S)
      → Dict.lookup id c.task_status ≡ some info
      → info.status ≡ running
      → length info.results + length (result ∷ results) ≡ length info.task.worker_ids
      → Dict.lookup id (report_all now id (result ∷ results) c).task_status
        ≡ some (record info {
          results = info.results ++ result ∷ results;
          status = complete;
          end_time = now;
        })
  unfolding report_all set_task_result result_on with_result
  report_all_complete now id result [] info c e r n =
      ground
        (arith, lookup-set_task_result now id result info c e r, with_result_last now result info n)
  report_all_complete now id result (next ∷ results) info c e r n =
      let more = with_result_more now (length results) result info (omega (arith, n)) in
      let step : Dict.lookup id (set_task_result now id result c).1.task_status
          ≡ some (record info { results = info.results ++ result ∷ [] }) =
        lookup-set_task_result now id result info c e r ∙ ap some more in
      let rest =
        report_all_complete now id next results
          (record info { results = info.results ++ result ∷ [] })
          (set_task_result now id result c).1 step r
          (omega (arith, n, length-append info.results (result ∷ []))) in
      ground (arith, rest, append_assoc info.results (result ∷ []) (next ∷ results))
