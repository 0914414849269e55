-- ===== src/Tasks/Coordinator/Terminal.antt =====
-- tasks.py: a task that succeeded is changed by no operation of the coordinator.
use china_a_share.Prelude.{
  ℕ, ◌≡◌, ◌≢◌, sym, ap, ◌∙◌, ◌⊎◌, inl, inr, Bool, true, false, ◌&&◌, Option, none, some, Text,
  text_eq, Eq, ◌==◌, List, arith, Bool-cases, Option-cases,
}
use china_a_share.Prelude.Maps.{lookup}
use china_a_share.Tasks.Coordinator.{
  Status, queued, running, succeeded, failed, Kind, analysis, discovery, feishu_agent, Task, World,
  is_queued, is_taken, is_analysis, new_task, put_task, reused, chosen_id, submit, submit_discovery,
  is_stale, silent, stopped, poll, Report, run_task,
}
use china_a_share.Tasks.Coordinator.Laws.{
  IsKeyed, put_keeps, differ, dispatch_keeps, run_started_keeps, put-IsKeyed, dispatch-IsKeyed,
  run_started-IsKeyed,
}

-- The operations, with what the clock, the dispatcher and the service do at each.
pub data Operation (Q A : Type 0) : Type 0 where
  submission :
      (task_id : Option Text) (generated : Text) (request : Q) (now : ℕ) (outcome : Option Text)
      (later : ℕ)
      → Operation Q A
  discovery_submission :
      (generated : Text) (request : Q) (now : ℕ) (outcome : Option Text) (later : ℕ) → Operation Q A
  polling : (task_id : Text) (now later : ℕ) → Operation Q A
  execution :
      (task_id : Text) (now monotonic : ℕ) (reports : List Report) (ending : A ⊎ Text) (later : ℕ)
      → Operation Q A

waiting_differs : (a b : Status) → is_queued a ≡ true → b ≡ succeeded → a ≢ b
waiting_differs queued b h p q = ground arith
waiting_differs running b h p q = ground arith
waiting_differs succeeded b h p q = ground arith
waiting_differs failed b h p q = ground arith

untaken_differs : (a b : Status) → is_taken a ≡ false → b ≡ succeeded → a ≢ b
untaken_differs queued b h p q = ground arith
untaken_differs running b h p q = ground arith
untaken_differs succeeded b h p q = ground arith
untaken_differs failed b h p q = ground arith

silent_differs :
    (k : Kind) (a b : Status) (late : Bool) → silent k a late ≡ true → b ≡ succeeded → a ≢ b
silent_differs analysis a b late h p q = ground arith
silent_differs feishu_agent a b late h p q = ground arith
silent_differs discovery queued b late h p q = ground arith
silent_differs discovery running b late h p q = ground arith
silent_differs discovery succeeded b late h p q = ground arith
silent_differs discovery failed b late h p q = ground arith

module _ {Q A : Type 0} ⦃e : Eq Q⦄ (url : Text → Text) where
  unfoldable pub apply : Operation Q A → World Q A → World Q A
  apply (submission task_id generated request now outcome later) w =
      (submit url task_id generated request now outcome later w).0
  apply (discovery_submission generated request now outcome later) w =
      (submit_discovery url generated request now outcome later w).0
  apply (polling task_id now later) w = (poll task_id now later w).0
  apply (execution task_id now monotonic reports ending later) w =
      (run_task task_id now monotonic reports ending later w).0

  -- A generated identifier, of a discovery, is of no task in the store.
  abbrev pub IsFresh : Operation Q A → World Q A → Type 0
  IsFresh (submission task_id generated request now outcome later) w = Unit
  IsFresh (discovery_submission generated request now outcome later) w =
      lookup generated w.tasks ≡ none
  IsFresh (polling task_id now later) w = Unit
  IsFresh (execution task_id now monotonic reports ending later) w = Unit

  status_differs : (t s : Task Q A) → t.status ≢ s.status → some t ≢ some s
  status_differs t s ne h = ground arith

  reused_keeps :
      (request : Q) (outcome : Option Text) (later : ℕ) (w : World Q A) (t : Task Q A) (id : Text)
      (s : Task Q A)
      → IsKeyed w
      → lookup t.task_id w.tasks ≡ some t
      → lookup id w.tasks ≡ some s
      → s.status ≡ succeeded
      → lookup id (reused url request outcome later t w).0.tasks ≡ some s
  reused_keeps request outcome later w t id s keyed found h done =
      elim (Bool-cases (is_analysis t.kind && (t.request == request))) [
        | inr other ↦ rw other h
        | inl same ↦ elim (Bool-cases (is_queued t.status)) [
          | inr taken ↦ rw (same, taken) h
          | inl waiting ↦
              let ne : t.status ≢ s.status = waiting_differs t.status s.status waiting done in
              rw (same, waiting)
                (dispatch_keeps url t outcome later w id
                    (differ w t.task_id id found h (status_differs t s ne))
                  ∙ h)
        ]
      ]

  submit_keeps :
      (task_id : Option Text) (generated : Text) (request : Q) (now : ℕ) (outcome : Option Text)
      (later : ℕ) (w : World Q A) (id : Text) (s : Task Q A)
      → IsKeyed w
      → lookup id w.tasks ≡ some s
      → s.status ≡ succeeded
      → lookup id (submit url task_id generated request now outcome later w).0.tasks ≡ some s
  unfolding submit
  submit_keeps task_id generated request now outcome later w id s keyed h done =
      let chosen = chosen_id task_id generated in
      elim (Option-cases (lookup chosen w.tasks)) [
        | inl missing ↦
            let t : Task Q A = new_task analysis chosen request now in
            let ne = differ w chosen id missing h (λ x. ground arith) in
            rw missing
              (dispatch_keeps url t outcome later (put_task t w) id ne ∙ (put_keeps t w id ne ∙ h))
        | inr (t, found) ↦
            let own : lookup t.task_id w.tasks ≡ some t =
              ap (λ i. lookup i w.tasks) (keyed.own chosen t found) ∙ found in
            rw found (reused_keeps request outcome later w t id s keyed own h done)
      ]

  submit_discovery_keeps :
      (generated : Text) (request : Q) (now : ℕ) (outcome : Option Text) (later : ℕ) (w : World Q A)
      (id : Text) (s : Task Q A)
      → lookup generated w.tasks ≡ none
      → lookup id w.tasks ≡ some s
      → lookup id (submit_discovery url generated request now outcome later w).0.tasks ≡ some s
  unfolding submit_discovery
  submit_discovery_keeps generated request now outcome later w id s missing h =
      let t : Task Q A = new_task discovery generated request now in
      let ne = differ w generated id missing h (λ x. ground arith) in
      dispatch_keeps url t outcome later (put_task t w) id ne ∙ (put_keeps t w id ne ∙ h)

  poll_keeps :
      (task_id : Text) (now later : ℕ) (w : World Q A) (id : Text) (s : Task Q A)
      → IsKeyed w
      → lookup id w.tasks ≡ some s
      → s.status ≡ succeeded
      → lookup id (poll task_id now later w).0.tasks ≡ some s
  unfolding poll
  poll_keeps task_id now later w id s keyed h done = elim (Option-cases (lookup task_id w.tasks)) [
    | inl missing ↦ rw missing h
    | inr (t, found) ↦ elim (Bool-cases (is_stale now t)) [
      | inr fresh ↦ rw (found, fresh) h
      | inl stale ↦
          let ne : t.status ≢ s.status = silent_differs t.kind t.status s.status _ stale done in
          let apart = differ w task_id id found h (status_differs t s ne) in
          rw (found, stale)
            (put_keeps (stopped later t) w id (λ x. apart (sym (keyed.own task_id t found) ∙ x))
              ∙ h)
    ]
  ]

  run_keeps :
      (task_id : Text) (now monotonic : ℕ) (reports : List Report) (ending : A ⊎ Text) (later : ℕ)
      (w : World Q A) (id : Text) (s : Task Q A)
      → IsKeyed w
      → lookup id w.tasks ≡ some s
      → s.status ≡ succeeded
      → lookup id (run_task task_id now monotonic reports ending later w).0.tasks ≡ some s
  unfolding run_task
  run_keeps task_id now monotonic reports ending later w id s keyed h done =
      elim (Option-cases (lookup task_id w.tasks)) [
        | inl missing ↦ rw missing h
        | inr (t, found) ↦ elim (Bool-cases (is_taken t.status)) [
          | inl taken ↦ rw (found, taken) h
          | inr waiting ↦
              let ne : t.status ≢ s.status = untaken_differs t.status s.status waiting done in
              let apart = differ w task_id id found h (status_differs t s ne) in
              rw (found, waiting)
                (run_started_keeps t now monotonic reports ending later w id
                    (λ x. apart (sym (keyed.own task_id t found) ∙ x))
                  ∙ h)
        ]
      ]

  -- In a store with each task under its own identifier, a task that succeeded is left as it is by
  -- every operation of the coordinator; a discovery is submitted under an identifier that no stored
  -- task has.
  pub succeeded_stays :
      (op : Operation Q A) (w : World Q A) (id : Text) (s : Task Q A)
      → IsKeyed w
      → IsFresh op w
      → lookup id w.tasks ≡ some s
      → s.status ≡ succeeded
      → lookup id (apply op w).tasks ≡ some s
  unfolding apply
  succeeded_stays (submission task_id generated request now outcome later) w id s keyed fresh h
        done =
      submit_keeps task_id generated request now outcome later w id s keyed h done
  succeeded_stays (discovery_submission generated request now outcome later) w id s keyed fresh h
        done =
      submit_discovery_keeps generated request now outcome later w id s fresh h
  succeeded_stays (polling task_id now later) w id s keyed fresh h done =
      poll_keeps task_id now later w id s keyed h done
  succeeded_stays (execution task_id now monotonic reports ending later) w id s keyed fresh h done =
      run_keeps task_id now monotonic reports ending later w id s keyed h done

  reused-IsKeyed :
      (request : Q) (outcome : Option Text) (later : ℕ) (t : Task Q A) (w : World Q A)
      → IsKeyed w
      → IsKeyed (reused url request outcome later t w).0
  reused-IsKeyed request outcome later t w k =
      elim (Bool-cases (is_analysis t.kind && (t.request == request))) [
        | inr other ↦ rw other k
        | inl same ↦ elim (Bool-cases (is_queued t.status)) [
          | inr taken ↦ rw (same, taken) k
          | inl waiting ↦ rw (same, waiting) (dispatch-IsKeyed url t outcome later w k)
        ]
      ]

  submit-IsKeyed :
      (task_id : Option Text) (generated : Text) (request : Q) (now : ℕ) (outcome : Option Text)
      (later : ℕ) (w : World Q A)
      → IsKeyed w
      → IsKeyed (submit url task_id generated request now outcome later w).0
  unfolding submit
  submit-IsKeyed task_id generated request now outcome later w k =
      elim (Option-cases (lookup (chosen_id task_id generated) w.tasks)) [
        | inl missing ↦
            let t : Task Q A = new_task analysis (chosen_id task_id generated) request now in
            rw missing (dispatch-IsKeyed url t outcome later (put_task t w) (put-IsKeyed t w k))
        | inr (t, found) ↦ rw found (reused-IsKeyed request outcome later t w k)
      ]

  poll-IsKeyed :
      (task_id : Text) (now later : ℕ) (w : World Q A)
      → IsKeyed w
      → IsKeyed (poll task_id now later w).0
  unfolding poll
  poll-IsKeyed task_id now later w k = elim (Option-cases (lookup task_id w.tasks)) [
    | inl missing ↦ rw missing k
    | inr (t, found) ↦ elim (Bool-cases (is_stale now t)) [
      | inr fresh ↦ rw (found, fresh) k
      | inl stale ↦ rw (found, stale) (put-IsKeyed (stopped later t) w k)
    ]
  ]

  run-IsKeyed :
      (task_id : Text) (now monotonic : ℕ) (reports : List Report) (ending : A ⊎ Text) (later : ℕ)
      (w : World Q A)
      → IsKeyed w
      → IsKeyed (run_task task_id now monotonic reports ending later w).0
  unfolding run_task
  run-IsKeyed task_id now monotonic reports ending later w k =
      elim (Option-cases (lookup task_id w.tasks)) [
        | inl missing ↦ rw missing k
        | inr (t, found) ↦ elim (Bool-cases (is_taken t.status)) [
          | inl taken ↦ rw (found, taken) k
          | inr waiting ↦
              rw (found, waiting) (run_started-IsKeyed t now monotonic reports ending later w k)
        ]
      ]

  -- Every operation of the coordinator keeps each task under its own identifier.
  apply-IsKeyed : (op : Operation Q A) (w : World Q A) → IsKeyed w → IsKeyed (apply op w)
  unfolding apply submit_discovery
  apply-IsKeyed (submission task_id generated request now outcome later) w k =
      submit-IsKeyed task_id generated request now outcome later w k
  apply-IsKeyed (discovery_submission generated request now outcome later) w k =
      let t : Task Q A = new_task discovery generated request now in
      dispatch-IsKeyed url t outcome later (put_task t w) (put-IsKeyed t w k)
  apply-IsKeyed (polling task_id now later) w k = poll-IsKeyed task_id now later w k
  apply-IsKeyed (execution task_id now monotonic reports ending later) w k =
      run-IsKeyed task_id now monotonic reports ending later w k
