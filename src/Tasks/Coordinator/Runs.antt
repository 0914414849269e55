-- ===== src/Tasks/Coordinator/Runs.antt =====
-- tasks.py: what a run and a repeated submission do, and the keys of the store after any operation.
use china_a_share.Prelude.{
  ℕ, ◌+◌, ◌≤◌, ◌≡◌, refl, ◌∙◌, ◌⊎◌, inl, inr, false, none, some, Text, text_eq, Eq, ==_refl, ltb,
  List, [], ◌∷◌, ok, arith, Bool-cases,
}
use mathlib.Core.Path.{subst}
use china_a_share.Prelude.Maps.{lookup}
use china_a_share.Tasks.Throttle.{min_object_write_interval}
use china_a_share.Tasks.Coordinator.{
  succeeded, analysis, Task, World, is_taken, new_task, put_task, submit, Report, Run,
  report_progress, report_all, finished, started_task, run_task,
}
use china_a_share.Tasks.Coordinator.Laws.{IsKeyed, put_found, report_all-task_id}

-- The times of the writes, the newest first, and the one before them all.
abbrev pub IsApart : List ℕ → ℕ → Type 0
IsApart [] start = Unit
IsApart (t ∷ []) start = start + min_object_write_interval ≤ t
IsApart (t ∷ (u ∷ ts)) start = (u + min_object_write_interval ≤ t) × IsApart (u ∷ ts) start

abbrev newest : List ℕ → ℕ → ℕ
newest [] start = start
newest (t ∷ ts) start = t

IsApart-cons :
    (t : ℕ) (ts : List ℕ) (start : ℕ)
    → newest ts start + min_object_write_interval ≤ t
    → IsApart ts start
    → IsApart (t ∷ ts) start
IsApart-cons t [] start le h = le
IsApart-cons t (u ∷ ts) start le h = (le, h)

module _ {Q A : Type 0} where
  report-IsApart :
      (r : Report) (w : World Q A) (run : Run Q A) (start : ℕ)
      → run.last_progress_write_at ≡ newest run.writes start
      → IsApart run.writes start
      → let run' = (report_progress r (w, run)).1 in
        (run'.last_progress_write_at ≡ newest run'.writes start) × IsApart run'.writes start
  unfolding report_progress
  report-IsApart r w run start n h =
      elim (Bool-cases (ltb r.monotonic (run.last_progress_write_at + min_object_write_interval))) [
        | inl early ↦ rw early (n, h)
        | inr due ↦ rw due (refl, IsApart-cons r.monotonic run.writes start (ground (arith, n)) h)
      ]

  report_all-IsApart :
      (rs : List Report) (w : World Q A) (run : Run Q A) (start : ℕ)
      → run.last_progress_write_at ≡ newest run.writes start
      → IsApart run.writes start
      → IsApart (report_all rs (w, run)).1.writes start
  unfolding report_all
  report_all-IsApart [] w run start n h = h
  report_all-IsApart (r ∷ rs) w run start n h =
      let s = report_progress r (w, run) in
      let (n', h') = report-IsApart r w run start n h in report_all-IsApart rs s.0 s.1 start n' h'

  -- The writes of a run's progress are at least one second apart, and the first one at least one
  -- second after the run's start.
  pub progress_writes-IsApart :
      (reports : List Report) (task : Task Q A) (start : ℕ) (w : World Q A)
      → IsApart
          (report_all reports
            (w, record { task = task; last_progress_write_at = start; writes = [] })).1.writes
          start
  progress_writes-IsApart reports task start w =
      report_all-IsApart reports w
        (record { task = task; last_progress_write_at = start; writes = [] }) start refl tt

  -- In a store with each task under its own identifier, a run of a stored task that is queued or
  -- failed, whose service responds, returns and stores a succeeded task with the response, and a
  -- run after it returns that task and changes nothing.
  pub run_task_succeeds :
      (id : Text) (now monotonic now' monotonic' : ℕ) (reports reports' : List Report) (a : A)
      (ending : A ⊎ Text) (later later' : ℕ) (w : World Q A) {t : Task Q A}
      → IsKeyed w
      → lookup id w.tasks ≡ some t
      → is_taken t.status ≡ false
      → let first = run_task id now monotonic reports (inl a) later w in
        (t' : Task Q A) × (first.1 ≡ ok t')
        × (t'.status ≡ succeeded)
        × (t'.response ≡ some a)
        × (lookup id first.0.tasks ≡ some t')
        × (run_task id now' monotonic' reports' ending later' first.0 ≡ (first.0, ok t'))
  unfolding run_task
  run_task_succeeds id now monotonic now' monotonic' reports reports' a ending later later' w {t}
        keyed found waiting =
      let start : World Q A = put_task (started_task now t) w in
      let run : Run Q A = record {
        task = started_task now t;
        last_progress_write_at = monotonic;
        writes = [];
      } in
      let s = report_all reports (start, run) in
      let last : Task Q A = finished (inl a) later s.1.task in
      let own : last.task_id ≡ id = report_all-task_id reports start run ∙ keyed.own id t found in
      let stored : lookup id (put_task last s.0).tasks ≡ some last =
        subst (λ i. lookup i (put_task last s.0).tasks ≡ some last) own (put_found last s.0) in
      rw found (rw waiting (last, refl, refl, refl, stored, rw stored refl))

  -- A submission under a new identifier that is not empty and whose dispatch succeeds, made again,
  -- gives the same answer, leaves the tasks as they are and dispatches the task once more.
  pub submit_again :
      ⦃e : Eq Q⦄ (url : Text → Text) (c : ℕ) (cs : Text) (generated : Text) (request : Q)
      (now later now' later' : ℕ) (w : World Q A)
      → lookup (c ∷ cs) w.tasks ≡ none
      → let first = submit url (some (c ∷ cs)) generated request now none later w in
        let again = submit url (some (c ∷ cs)) generated request now' none later' first.0 in
        (again.1 ≡ first.1)
        × (again.0.tasks ≡ first.0.tasks)
        × (again.0.dispatched ≡ (c ∷ cs) ∷ first.0.dispatched)
  unfolding submit
  submit_again url c cs generated request now later now' later' w missing =
      let t : Task Q A = new_task analysis (c ∷ cs) request now in
      let stored : lookup (c ∷ cs) (put_task t w).tasks ≡ some t = put_found t w in
      rw missing (rw stored (rw (==_refl request) (refl, refl, refl)))
