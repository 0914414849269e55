-- ===== src/Tasks/Coordinator.antt =====
-- tasks.py: `AnalysisTaskCoordinator`, over a store of tasks by their identifiers. A task of either kind
-- is one record, with the fields of the other kind unused; a time is in microseconds. The generated
-- identifier, the clock, what the dispatcher does and what the service does are arguments.
pub mod Laws
pub mod Runs
pub mod Terminal
use china_a_share.Prelude.{
  ℕ, ◌+◌, ◌-◌, ◌*◌, Bool, true, false, ◌&&◌, ◌||◌, not, Option, none, some, Text, text, text_eq,
  text_beq, Eq, ◌==◌, ltb, List, [], ◌∷◌, Result, Fault, ok, raised, value_error, key_error,
  external_error, is_nil, ◌⊎◌, inl, inr, if◌then◌else◌,
}
use china_a_share.Prelude.Maps.{Dict, lookup, insert}
use china_a_share.Tasks.Throttle.{min_object_write_interval}

pub data Status : Type 0 where
  queued running succeeded failed : Status

pub data Kind : Type 0 where
  analysis discovery feishu_agent : Kind

pub record Task (Q A : Type 0) : Type 0 where
  pub kind : Kind
  pub task_id : Text
  pub status : Status
  pub request : Q
  pub created_at : ℕ
  pub updated_at : ℕ
  pub completed_items : ℕ
  pub total_items : ℕ
  pub response : Option A
  pub current_stage : Text
  pub current_log : Text
  pub error : Option Text

-- The store, with the identifiers that the dispatcher was asked to start, the newest first.
pub record World (Q A : Type 0) : Type 0 where
  pub tasks : Dict Text (Task Q A)
  pub dispatched : List Text

pub record Submission : Type 0 where
  pub task_id : Text
  pub status : Status
  pub status_url : Text

abbrev pub is_queued : Status → Bool
is_queued queued = true
is_queued s = false

-- The statuses of a task that is not run again.
abbrev pub is_taken : Status → Bool
is_taken running = true
is_taken succeeded = true
is_taken s = false

abbrev pub is_analysis : Kind → Bool
is_analysis analysis = true
is_analysis k = false

abbrev pub discovery_task_stale_after : ℕ
discovery_task_stale_after = 30 * 60 * 1000000

-- Only a running discovery can be silent for too long.
abbrev pub silent : Kind → Status → Bool → Bool
silent discovery running late = late
silent discovery queued late = false
silent discovery succeeded late = false
silent discovery failed late = false
silent analysis s late = false
silent feishu_agent s late = false

-- `task_id or uuid4().hex`
abbrev pub chosen_id : Option Text → Text → Text
chosen_id none generated = generated
chosen_id (some []) generated = generated
chosen_id (some (c ∷ s)) generated = c ∷ s

abbrev pub stopped_message : Text
stopped_message =
    text
      "The research worker stopped without reporting a terminal result. This commonly indicates a platform resource limit."

-- A report of progress: the items, the clock and the monotonic clock at it.
pub record Report : Type 0 where
  pub completed : ℕ
  pub total : ℕ
  pub reported_at : ℕ
  pub monotonic : ℕ

-- What a run holds: its task, the time of the last write of progress, and those of all such writes
-- so far, the newest first.
pub record Run (Q A : Type 0) : Type 0 where
  pub task : Task Q A
  pub last_progress_write_at : ℕ
  pub writes : List ℕ

abbrev pub Answered : Type 0 → Type 0 → Type 0
Answered Q A = World Q A × Result Submission

module _ {Q A : Type 0} where
  abbrev pub new_task : Kind → Text → Q → ℕ → Task Q A
  new_task kind task_id request now = record {
    kind = kind;
    task_id = task_id;
    status = queued;
    request = request;
    created_at = now;
    updated_at = now;
    completed_items = 0;
    total_items = 0;
    response = none;
    current_stage = text "queued";
    current_log = [];
    error = none;
  }

  -- The store's `put`.
  unfoldable pub put_task : Task Q A → World Q A → World Q A
  put_task task w = record w { tasks = insert task.task_id task w.tasks }

  abbrev pub submission_of : (Text → Text) → Task Q A → Submission
  submission_of url task = record {
    task_id = task.task_id;
    status = task.status;
    status_url = url task.task_id;
  }

  -- The dispatcher's call, whose exception has a message, and the failed task that it leaves.
  abbrev pub dispatch_task : (Text → Text) → Task Q A → Option Text → ℕ → World Q A → Answered Q A
  dispatch_task url task none later w =
      (record w { dispatched = task.task_id ∷ w.dispatched }, ok (submission_of url task))
  dispatch_task url task (some message) later w = (
    put_task (record task { status = failed; updated_at = later; error = some message })
        (record w { dispatched = task.task_id ∷ w.dispatched }),
    raised external_error,
  )

  abbrev pub reused :
      ⦃e : Eq Q⦄ → (Text → Text) → Q → Option Text → ℕ → Task Q A → World Q A → Answered Q A
  reused url request outcome later task w =
      if not (is_analysis task.kind && (task.request == request))
      then (w, raised value_error)
      else if is_queued task.status
      then dispatch_task url task outcome later w
      else (w, ok (submission_of url task))

  abbrev pub submitted :
      ⦃e : Eq Q⦄
      → (Text → Text)
      → Text
      → Q
      → ℕ
      → Option Text
      → ℕ
      → World Q A
      → Option (Task Q A)
      → Answered Q A
  submitted url task_id request now outcome later w none =
      dispatch_task url (new_task analysis task_id request now) outcome later
        (put_task (new_task analysis task_id request now) w)
  submitted url task_id request now outcome later w (some task) =
      reused url request outcome later task w

  unfoldable pub submit :
      ⦃e : Eq Q⦄
      → (Text → Text)
      → Option Text
      → (generated : Text) → Q
      → (now : ℕ) → (outcome : Option Text) → (later : ℕ) → World Q A
      → Answered Q A
  submit url task_id generated request now outcome later w =
      let id = chosen_id task_id generated in
      submitted url id request now outcome later w (lookup id w.tasks)

  unfoldable pub submit_discovery :
      (Text → Text)
      → (generated : Text) → Q
      → (now : ℕ) → (outcome : Option Text) → (later : ℕ) → World Q A
      → Answered Q A
  submit_discovery url generated request now outcome later w =
      dispatch_task url (new_task discovery generated request now) outcome later
        (put_task (new_task discovery generated request now) w)

  abbrev pub is_stale : ℕ → Task Q A → Bool
  is_stale now task =
      silent task.kind task.status (ltb discovery_task_stale_after (now - task.updated_at))

  abbrev pub stopped : ℕ → Task Q A → Task Q A
  stopped later task = record task {
    status = failed;
    updated_at = later;
    current_stage = text "failed";
    current_log = text "The research worker stopped unexpectedly.";
    error = some stopped_message;
  }

  abbrev pub polled : ℕ → ℕ → World Q A → Option (Task Q A) → World Q A × Option (Task Q A)
  polled now later w none = (w, none)
  polled now later w (some task) =
      if is_stale now task
      then (put_task (stopped later task) w, some (stopped later task))
      else (w, some task)

  -- `get`, which fails a discovery whose worker is silent.
  unfoldable pub poll : Text → (now later : ℕ) → World Q A → World Q A × Option (Task Q A)
  poll task_id now later w = polled now later w (lookup task_id w.tasks)

  abbrev pub with_report : Report → Task Q A → Task Q A
  with_report r task = record task {
    completed_items = r.completed;
    total_items = r.total;
    updated_at = r.reported_at;
  }

  -- `report_progress`. A clock that ran backwards is within the interval, as in the source.
  unfoldable pub report_progress : Report → World Q A × Run Q A → World Q A × Run Q A
  report_progress r (w, run) =
      if ltb r.monotonic (run.last_progress_write_at + min_object_write_interval)
      then (w, record run { task = with_report r run.task })
      else (
        put_task (with_report r run.task) w,
        record {
          task = with_report r run.task;
          last_progress_write_at = r.monotonic;
          writes = r.monotonic ∷ run.writes;
        },
      )

  unfoldable pub report_all : List Report → World Q A × Run Q A → World Q A × Run Q A
  report_all [] s = s
  report_all (r ∷ rs) s = report_all rs (report_progress r s)

  -- How the service's `analyze` ends: with a response, or an exception's message.
  abbrev pub finished : A ⊎ Text → ℕ → Task Q A → Task Q A
  finished (inl response) now task = record task {
    status = succeeded;
    response = some response;
    updated_at = now;
  }
  finished (inr message) now task = record task {
    status = failed;
    error = some message;
    updated_at = now;
  }

  abbrev pub started_task : ℕ → Task Q A → Task Q A
  started_task now task = record task { status = running; updated_at = now; error = none }

  abbrev pub run_started :
      Task Q A
      → (now monotonic : ℕ) → List Report
      → A ⊎ Text
      → ℕ
      → World Q A
      → World Q A × Result (Task Q A)
  run_started task now monotonic reports ending later w =
      let first : World Q A × Run Q A = (
        put_task (started_task now task) w,
        record { task = started_task now task; last_progress_write_at = monotonic; writes = [] },
      ) in
      let (w', r) = report_all reports first in
      (put_task (finished ending later r.task) w', ok (finished ending later r.task))

  abbrev pub run_found :
      (now monotonic : ℕ)
      → List Report
      → A ⊎ Text
      → ℕ
      → World Q A
      → Option (Task Q A)
      → World Q A × Result (Task Q A)
  run_found now monotonic reports ending later w none = (w, raised key_error)
  run_found now monotonic reports ending later w (some task) =
      if is_taken task.status
      then (w, ok task)
      else run_started task now monotonic reports ending later w

  -- `run`, of an analysis task.
  unfoldable pub run_task :
      Text
      → (now monotonic : ℕ) → List Report
      → A ⊎ Text
      → ℕ
      → World Q A
      → World Q A × Result (Task Q A)
  run_task task_id now monotonic reports ending later w =
      run_found now monotonic reports ending later w (lookup task_id w.tasks)
