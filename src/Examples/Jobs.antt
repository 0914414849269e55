-- ===== src/Examples/Jobs.antt =====
-- tasks.py: the theorems on datasets, writes, dispatches and the coordinator, at concrete inputs.
use china_a_share.Prelude.{
  ℕ, zero, suc, ◌-◌, ◌*◌, ◌^◌, ◌<◌, ◌≡◌, ◌≢◌, refl, inl, inr, true, none, some, Text, text, text_eq,
  text_beq, pair_eq, nat_eq, List, [], ◌∷◌, ◌++◌, ok, text_beq_iff, Bool-cases, arith,
}
use mathlib.Core.Path.{subst}
use china_a_share.Prelude.Maps.{lookup, insert}
use china_a_share.Tasks.Datasets.{
  Datasets, text_or, archive_dataset, mark_final_dataset, promote_session_workspace,
  get_session_workspace, validate_dataset_identity, validate_artifact_identity, is_identifier,
}
use china_a_share.Tasks.Datasets.Laws.{
  IsClosed, archive_dataset-IsClosed, mark_final_dataset-IsClosed, promote_session_workspace_loads,
}
use china_a_share.Tasks.Throttle.{write_times}
use china_a_share.Tasks.Throttle.Laws.{IsSpaced, times_of, write_times-IsSpaced}
use china_a_share.Tasks.Dispatch.{Post, status, no_response, again, verdict, dispatch, is_retryable}
use china_a_share.Tasks.Dispatch.Laws.{result_of, dispatch_decided}
use china_a_share.Tasks.Coordinator.{
  succeeded, analysis, Task, World, Report, report_all, run_task, new_task,
}
use china_a_share.Tasks.Coordinator.Laws.{IsKeyed}
use china_a_share.Tasks.Coordinator.Runs.{IsApart, progress_writes-IsApart, run_task_succeeds}
use china_a_share.Tasks.Coordinator.Terminal.{submission, apply, succeeded_stays}

abbrev no_datasets : Datasets ℕ
no_datasets = record {
  artifacts = [];
  datasets = [];
  latest_datasets = [];
  final_datasets = [];
  session_workspaces = [];
}

no_datasets-IsClosed : IsClosed no_datasets
unfolding lookup
no_datasets-IsClosed = record {
  latest_archived = λ t d h. absurd (ground arith);
  final_archived = λ t d h. absurd (ground arith);
  workspace_archived = λ c t d h. absurd (ground arith);
}

abbrev one_dataset : Datasets ℕ
one_dataset = record {
  artifacts = [];
  datasets = ((text "t1", text "d1"), 7) ∷ [];
  latest_datasets = (text "t1", text "d1") ∷ [];
  final_datasets = [];
  session_workspaces = [];
}

abbrev base_name : Text → Text
base_name s = s

one_archived : archive_dataset base_name (text "t1") (text "d1") 7 no_datasets ≡ ok one_dataset
unfolding archive_dataset validate_dataset_identity validate_artifact_identity is_identifier insert
one_archived = refl

abbrev final_dataset : Datasets ℕ
final_dataset = record {
  artifacts = [];
  datasets = ((text "t1", text "d1"), 7) ∷ [];
  latest_datasets = (text "t1", text "d1") ∷ [];
  final_datasets = (text "t1", text "d1") ∷ [];
  session_workspaces = [];
}

one_marked : mark_final_dataset base_name (text "t1") (text "d1") one_dataset ≡ ok final_dataset
unfolding mark_final_dataset validate_dataset_identity validate_artifact_identity is_identifier
    insert lookup
one_marked = refl

one_promoted : (promote_session_workspace (text "c1") (text "t1") final_dataset).1 ≡ true
unfolding promote_session_workspace text_or lookup
one_promoted = refl

one_dataset-IsClosed : IsClosed one_dataset
one_dataset-IsClosed =
    archive_dataset-IsClosed base_name (text "t1") (text "d1") 7 no_datasets no_datasets-IsClosed
      one_archived

final_dataset-IsClosed : IsClosed final_dataset
final_dataset-IsClosed =
    mark_final_dataset-IsClosed base_name (text "t1") (text "d1") one_dataset one_dataset-IsClosed
      one_marked

promote_session_workspace_loads_example :
    (d : Text) × (q : ℕ) × (text_or
        (lookup (text "t1") final_dataset.final_datasets)
        (lookup (text "t1") final_dataset.latest_datasets)
      ≡ some d)
    × (lookup ⦃e = pair_eq⦄ (text "t1", d) final_dataset.datasets ≡ some q)
    × (get_session_workspace
          (text "c1")
          (promote_session_workspace (text "c1") (text "t1") final_dataset).0
        ≡ some q)
promote_session_workspace_loads_example =
    promote_session_workspace_loads (text "c1") (text "t1") final_dataset final_dataset-IsClosed
      one_promoted

write_times-IsSpaced_example :
    IsSpaced 0
      (times_of (text "a") (write_times ((text "a", 5) ∷ (text "b", 6) ∷ (text "a", 7) ∷ []) []))
write_times-IsSpaced_example =
    write_times-IsSpaced (text "a") ((text "a", 5) ∷ (text "b", 6) ∷ (text "a", 7) ∷ [])

abbrev busy_once : ℕ → Post
busy_once zero = status 503
busy_once (suc n) = status 200

busy_before : (m : ℕ) → m < 1 → verdict (busy_once m) ≡ again
unfolding verdict is_retryable
busy_before zero h = refl
busy_before (suc m) h = absurd (omega arith)

decided_then : verdict (busy_once 1) ≢ again
unfolding verdict is_retryable
decided_then h = ground arith

dispatch_decided_example :
    dispatch busy_once
    ≡ record { posts = 2; slept = 500 * (2 ^ 1 - 1); result = result_of (verdict (busy_once 1)) }
dispatch_decided_example = dispatch_decided busy_once 1 (omega arith) busy_before decided_then

abbrev never : ℕ → Post
never n = no_response

never_meets : (m : ℕ) → m < 4 → verdict (never m) ≡ again
unfolding verdict
never_meets m h = refl

abbrev task_url : Text → Text
task_url id = text "/api/analysis/tasks/" ++ id

abbrev queued_task : Task ℕ ℕ
queued_task = new_task analysis (text "t1") 3 10

abbrev one_task : World ℕ ℕ
one_task = record { tasks = (text "t1", queued_task) ∷ []; dispatched = text "t1" ∷ [] }

one_task-own :
    (id : Text) (task : Task ℕ ℕ) → lookup id one_task.tasks ≡ some task → task.task_id ≡ id
unfolding lookup
one_task-own id task h = elim (Bool-cases (text_beq (text "t1") id)) [
  | inl same ↦
      let h = rw same at h in
      let task_same : queued_task ≡ task = ground arith in
      subst (λ t. t.task_id ≡ id) task_same ((text_beq_iff (text "t1") id).0 same)
  | inr other ↦ absurd (let h = rw other at h in ground arith)
]

one_task-IsKeyed : IsKeyed one_task
one_task-IsKeyed = record { own = one_task-own }

one_found : lookup (text "t1") one_task.tasks ≡ some queued_task
unfolding lookup
one_found = refl

other_missing : lookup (text "t2") one_task.tasks ≡ none
unfolding lookup
other_missing = refl

abbrev two_reports : List Report
two_reports =
    record { completed = 1; total = 2; reported_at = 20; monotonic = 100 }
    ∷ record { completed = 2; total = 2; reported_at = 30; monotonic = 2000000 }
    ∷ []

progress_writes-IsApart_example :
    IsApart
      (report_all two_reports
        (one_task, record { task = queued_task; last_progress_write_at = 0; writes = [] })).1.writes
      0
progress_writes-IsApart_example = progress_writes-IsApart two_reports queued_task 0 one_task

run_task_succeeds_example :
    let first = run_task (text "t1") 11 0 two_reports (inl 9) 40 one_task in
    (t' : Task ℕ ℕ) × (first.1 ≡ ok t')
    × (t'.status ≡ succeeded)
    × (t'.response ≡ some 9)
    × (lookup (text "t1") first.0.tasks ≡ some t')
    × (run_task (text "t1") 50 50 [] (inr (text "boom")) 60 first.0 ≡ (first.0, ok t'))
run_task_succeeds_example =
    run_task_succeeds (text "t1") 11 0 50 50 two_reports [] 9 (inr (text "boom")) 40 60 one_task
      one_task-IsKeyed one_found refl

abbrev done_task : Task ℕ ℕ
done_task = record queued_task { status = succeeded; response = some 9 }

abbrev one_done : World ℕ ℕ
one_done = record { tasks = (text "t1", done_task) ∷ []; dispatched = [] }

one_done-own :
    (id : Text) (task : Task ℕ ℕ) → lookup id one_done.tasks ≡ some task → task.task_id ≡ id
unfolding lookup
one_done-own id task h = elim (Bool-cases (text_beq (text "t1") id)) [
  | inl same ↦
      let h = rw same at h in
      let task_same : done_task ≡ task = ground arith in
      subst (λ t. t.task_id ≡ id) task_same ((text_beq_iff (text "t1") id).0 same)
  | inr other ↦ absurd (let h = rw other at h in ground arith)
]

done_found : lookup (text "t1") one_done.tasks ≡ some done_task
unfolding lookup
done_found = refl

succeeded_stays_example :
    lookup
      (text "t1")
      (apply task_url (submission (some (text "t1")) (text "g") 3 10 none 11) one_done).tasks
    ≡ some done_task
succeeded_stays_example =
    succeeded_stays task_url (submission (some (text "t1")) (text "g") 3 10 none 11) one_done
      (text "t1") done_task (record { own = one_done-own }) tt done_found refl
