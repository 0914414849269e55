-- ===== src/Tasks/Coordinator/Laws.antt =====
-- tasks.py: what the coordinator's operations leave of the tasks in the store.
use china_a_share.Prelude.{
  ℕ, ◌+◌, ◌≡◌, ◌≢◌, refl, sym, ap, ◌∙◌, ◌⊎◌, inl, inr, Option, none, some, Text, text_eq, text_beq,
  text_beq_iff, ltb, List, [], ◌∷◌, arith, Bool-cases,
}
use mathlib.Core.Path.{subst}
use china_a_share.Prelude.Maps.{lookup, lookup-insert, lookup-insert_self}
use china_a_share.Tasks.Throttle.{min_object_write_interval}
use china_a_share.Tasks.Coordinator.{
  failed, Task, World, put_task, dispatch_task, Report, Run, with_report, report_progress,
  report_all, finished, started_task, run_started,
}

module _ {Q A : Type 0} where
  -- Each task is under its own identifier.
  pub record IsKeyed (w : World Q A) : Type 0 where
    pub own : (id : Text) (task : Task Q A) → lookup id w.tasks ≡ some task → task.task_id ≡ id

  pub put_keeps :
      (task : Task Q A) (w : World Q A) (id : Text)
      → task.task_id ≢ id
      → lookup id (put_task task w).tasks ≡ lookup id w.tasks
  unfolding put_task
  put_keeps task w id ne =
      rw (lookup-insert task.task_id id task w.tasks) (ground (arith, text_beq_iff task.task_id id))

  pub put_found :
      (task : Task Q A) (w : World Q A) → lookup task.task_id (put_task task w).tasks ≡ some task
  unfolding put_task
  put_found task w = lookup-insert_self task.task_id task w.tasks

  put_own :
      (task : Task Q A) (w : World Q A)
      → IsKeyed w
      → (id : Text) (found : Task Q A) → lookup id (put_task task w).tasks ≡ some found
      → found.task_id ≡ id
  unfolding put_task
  put_own task w keyed id found h =
      let looked = lookup-insert task.task_id id task w.tasks in
      elim (Bool-cases (text_beq task.task_id id)) [
        | inl e ↦
            let h = rw (looked, e) at h in
            let same : task ≡ found = ground arith in
            subst (λ t. t.task_id ≡ id) same ((text_beq_iff task.task_id id).0 e)
        | inr e ↦ let h = rw (looked, e) at h in keyed.own id found h
      ]

  pub put-IsKeyed : (task : Task Q A) (w : World Q A) → IsKeyed w → IsKeyed (put_task task w)
  put-IsKeyed task w keyed = record { own = put_own task w keyed }

  -- Two identifiers of which the store has different tasks differ.
  pub differ :
      (w : World Q A) (i j : Text) {found : Option (Task Q A)} {task : Task Q A}
      → lookup i w.tasks ≡ found
      → lookup j w.tasks ≡ some task
      → found ≢ some task
      → i ≢ j
  differ w i j {found} {task} p q ne e = ne (sym p ∙ (ap (λ k. lookup k w.tasks) e ∙ q))

  pub report-task_id :
      (r : Report) (w : World Q A) (run : Run Q A)
      → (report_progress r (w, run)).1.task.task_id ≡ run.task.task_id
  unfolding report_progress
  report-task_id r w run = ground arith

  pub report_all-task_id :
      (rs : List Report) (w : World Q A) (run : Run Q A)
      → (report_all rs (w, run)).1.task.task_id ≡ run.task.task_id
  unfolding report_all
  report_all-task_id [] w run = refl
  report_all-task_id (r ∷ rs) w run =
      let s = report_progress r (w, run) in report_all-task_id rs s.0 s.1 ∙ report-task_id r w run

  pub report_keeps :
      (r : Report) (w : World Q A) (run : Run Q A) (id : Text)
      → run.task.task_id ≢ id
      → lookup id (report_progress r (w, run)).0.tasks ≡ lookup id w.tasks
  unfolding report_progress
  report_keeps r w run id ne = ground (arith, put_keeps (with_report r run.task) w id ne)

  pub report_all_keeps :
      (rs : List Report) (w : World Q A) (run : Run Q A) (id : Text)
      → run.task.task_id ≢ id
      → lookup id (report_all rs (w, run)).0.tasks ≡ lookup id w.tasks
  unfolding report_all
  report_all_keeps [] w run id ne = refl
  report_all_keeps (r ∷ rs) w run id ne =
      let s = report_progress r (w, run) in
      let ne' : s.1.task.task_id ≢ id = λ e. ne (sym (report-task_id r w run) ∙ e) in
      report_all_keeps rs s.0 s.1 id ne' ∙ report_keeps r w run id ne

  pub dispatch_keeps :
      (url : Text → Text) (task : Task Q A) (outcome : Option Text) (later : ℕ) (w : World Q A)
      (id : Text)
      → task.task_id ≢ id
      → lookup id (dispatch_task url task outcome later w).0.tasks ≡ lookup id w.tasks
  dispatch_keeps url task none later w id ne = refl
  dispatch_keeps url task (some message) later w id ne =
      put_keeps (record task { status = failed; updated_at = later; error = some message })
        (record w { dispatched = task.task_id ∷ w.dispatched }) id ne

  finished-task_id :
      (ending : A ⊎ Text) (now : ℕ) (task : Task Q A)
      → (finished ending now task).task_id ≡ task.task_id
  finished-task_id (inl response) now task = refl
  finished-task_id (inr message) now task = refl

  pub run_started_keeps :
      (task : Task Q A) (now monotonic : ℕ) (reports : List Report) (ending : A ⊎ Text) (later : ℕ)
      (w : World Q A) (id : Text)
      → task.task_id ≢ id
      → lookup id (run_started task now monotonic reports ending later w).0.tasks
        ≡ lookup id w.tasks
  run_started_keeps task now monotonic reports ending later w id ne =
      let first = put_task (started_task now task) w in
      let run : Run Q A = record {
        task = started_task now task;
        last_progress_write_at = monotonic;
        writes = [];
      } in
      let s = report_all reports (first, run) in
      let own : (finished ending later s.1.task).task_id ≡ task.task_id =
        finished-task_id ending later s.1.task ∙ report_all-task_id reports first run in
      put_keeps (finished ending later s.1.task) s.0 id (λ x. ne (sym own ∙ x))
      ∙ (report_all_keeps reports first run id ne ∙ put_keeps (started_task now task) w id ne)

  report-IsKeyed :
      (r : Report) (w : World Q A) (run : Run Q A)
      → IsKeyed w
      → IsKeyed (report_progress r (w, run)).0
  unfolding report_progress
  report-IsKeyed r w run k =
      elim (Bool-cases (ltb r.monotonic (run.last_progress_write_at + min_object_write_interval))) [
        | inl early ↦ rw early k
        | inr due ↦ rw due (put-IsKeyed (with_report r run.task) w k)
      ]

  report_all-IsKeyed :
      (rs : List Report) (w : World Q A) (run : Run Q A)
      → IsKeyed w
      → IsKeyed (report_all rs (w, run)).0
  unfolding report_all
  report_all-IsKeyed [] w run k = k
  report_all-IsKeyed (r ∷ rs) w run k =
      let s = report_progress r (w, run) in report_all-IsKeyed rs s.0 s.1 (report-IsKeyed r w run k)

  pub run_started-IsKeyed :
      (task : Task Q A) (now monotonic : ℕ) (reports : List Report) (ending : A ⊎ Text) (later : ℕ)
      (w : World Q A)
      → IsKeyed w
      → IsKeyed (run_started task now monotonic reports ending later w).0
  run_started-IsKeyed task now monotonic reports ending later w k =
      put-IsKeyed _ _ (report_all-IsKeyed reports _ _ (put-IsKeyed (started_task now task) w k))

  pub dispatch-IsKeyed :
      (url : Text → Text) (task : Task Q A) (outcome : Option Text) (later : ℕ) (w : World Q A)
      → IsKeyed w
      → IsKeyed (dispatch_task url task outcome later w).0
  dispatch-IsKeyed url task none later w k = record { own = k.own }
  dispatch-IsKeyed url task (some message) later w k =
      put-IsKeyed _ (record w { dispatched = task.task_id ∷ w.dispatched }) (record { own = k.own })
