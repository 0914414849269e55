-- ===== src/Tasks/Datasets/Laws.antt =====
-- tasks.py: every pointer of a store leads to an archived dataset, and a promoted session has one.
use china_a_share.Prelude.{
  ◌≡◌, refl, ◌∙◌, inl, inr, true, some, Text, text_eq, text_beq, text_beq_iff, pair_eq, pair_beq,
  [], ◌∷◌, ok, arith, Bool-cases, Option-cases, Result-cases,
}
use mathlib.Core.Path.{subst}
use china_a_share.Prelude.Maps.{Dict, lookup, insert, lookup-insert, lookup-insert_self}
use china_a_share.Tasks.Datasets.{
  Datasets, text_or, validate_dataset_identity, archive_dataset, mark_final_dataset,
  promote_session_workspace, get_session_workspace,
}

-- A dataset that is archived.
abbrev pub IsArchived : {Q : Type 0} → Datasets Q → Text → Text → Type 0
IsArchived {Q} s task_id dataset_id =
    (q : Q) × (lookup ⦃e = pair_eq⦄ (task_id, dataset_id) s.datasets ≡ some q)

pub record IsClosed {Q : Type 0} (s : Datasets Q) : Type 0 where
  pub latest_archived : (t d : Text) → lookup t s.latest_datasets ≡ some d → IsArchived s t d
  pub final_archived : (t d : Text) → lookup t s.final_datasets ≡ some d → IsArchived s t d
  pub workspace_archived :
      (c t d : Text) → lookup c s.session_workspaces ≡ some (t, d) → IsArchived s t d

module _ {Q : Type 0} (path_name : Text → Text) where
  archived_kept :
      (task_id query_id : Text) (q : Q) (s : Datasets Q) (t d : Text)
      → IsArchived s t d
      → (x : Q) × (lookup ⦃e = pair_eq⦄
            (t, d)
            (insert ⦃e = pair_eq⦄ (task_id, query_id) q s.datasets)
          ≡ some x)
  archived_kept task_id query_id q s t d (x, h) =
      rw (lookup-insert ⦃e = pair_eq⦄ (task_id, query_id) (t, d) q s.datasets)
        (elim (Bool-cases (pair_beq (task_id, query_id) (t, d))) [
          | inl e ↦ rw e (q, refl)
          | inr e ↦ rw e (x, h)
        ])

  archived_self :
      (task_id query_id : Text) (q : Q) (s : Datasets Q)
      → lookup ⦃e = pair_eq⦄
          (task_id, query_id)
          (insert ⦃e = pair_eq⦄ (task_id, query_id) q s.datasets)
        ≡ some q
  archived_self task_id query_id q s =
      lookup-insert_self ⦃e = pair_eq⦄ (task_id, query_id) q s.datasets

  abbrev archived : Text → Text → Q → Datasets Q → Datasets Q
  archived task_id query_id q s = record s {
    datasets = insert ⦃e = pair_eq⦄ (task_id, query_id) q s.datasets;
    latest_datasets = insert task_id query_id s.latest_datasets;
  }

  -- A pointer that is set to an archived dataset keeps all pointers archived.
  set_pointer :
      (s : Datasets Q) (pointers : Dict Text Text) (task_id dataset_id : Text)
      → IsArchived s task_id dataset_id
      → ((t d : Text) → lookup t pointers ≡ some d → IsArchived s t d)
      → (t d : Text) → lookup t (insert task_id dataset_id pointers) ≡ some d
      → IsArchived s t d
  set_pointer s pointers task_id dataset_id a h t d e =
      let looked = lookup-insert task_id t dataset_id pointers in
      elim (Bool-cases (text_beq task_id t)) [
        | inl same ↦
            let e = rw (looked, same) at e in
            let first : task_id ≡ t = (text_beq_iff task_id t).0 same in
            let second : dataset_id ≡ d = ground arith in
            subst (λ i. IsArchived s i d) first (subst (λ j. IsArchived s task_id j) second a)
        | inr other ↦ let e = rw (looked, other) at e in h t d e
      ]

  archived-IsClosed :
      (task_id query_id : Text) (q : Q) (s : Datasets Q)
      → IsClosed s
      → IsClosed (archived task_id query_id q s)
  archived-IsClosed task_id query_id q s c = record {
    latest_archived =
        set_pointer (archived task_id query_id q s) s.latest_datasets task_id query_id
          (q, archived_self task_id query_id q s)
          (λ t d e. archived_kept task_id query_id q s t d (c.latest_archived t d e));
    final_archived = λ t d e. archived_kept task_id query_id q s t d (c.final_archived t d e);
    workspace_archived =
        λ w t d e. archived_kept task_id query_id q s t d (c.workspace_archived w t d e);
  }

  -- If every pointer of the store leads to an archived dataset, it does so after a dataset is
  -- archived.
  pub archive_dataset-IsClosed :
      (task_id query_id : Text) (q : Q) (s : Datasets Q) {s' : Datasets Q}
      → IsClosed s
      → archive_dataset path_name task_id query_id q s ≡ ok s'
      → IsClosed s'
  unfolding archive_dataset
  archive_dataset-IsClosed task_id query_id q s {s'} c h =
      elim (Result-cases (validate_dataset_identity path_name task_id query_id)) [
        | inr (x, e) ↦ absurd (let h = rw e at h in ground arith)
        | inl (u, e) ↦
            let h = rw e at h in
            let same : archived task_id query_id q s ≡ s' = ground arith in
            subst (λ x. IsClosed x) same (archived-IsClosed task_id query_id q s c)
      ]

  abbrev finalised : Text → Text → Datasets Q → Datasets Q
  finalised task_id dataset_id s = record s {
    final_datasets = insert task_id dataset_id s.final_datasets;
  }

  -- If every pointer of the store leads to an archived dataset, it does so after a dataset is
  -- marked as final.
  pub mark_final_dataset-IsClosed :
      (task_id dataset_id : Text) (s : Datasets Q) {s' : Datasets Q}
      → IsClosed s
      → mark_final_dataset path_name task_id dataset_id s ≡ ok s'
      → IsClosed s'
  unfolding mark_final_dataset
  mark_final_dataset-IsClosed task_id dataset_id s {s'} c h =
      elim (Result-cases (validate_dataset_identity path_name task_id dataset_id)) [
        | inr (x, e) ↦ absurd (let h = rw e at h in ground arith)
        | inl (u, e) ↦
            let h = rw e at h in
            elim (Option-cases (lookup ⦃e = pair_eq⦄ (task_id, dataset_id) s.datasets)) [
              | inl missing ↦ absurd (let h = rw missing at h in ground arith)
              | inr (q, found) ↦
                  let h = rw found at h in
                  let same : finalised task_id dataset_id s ≡ s' = ground arith in
                  subst (λ x. IsClosed x) same
                    (record {
                      latest_archived = c.latest_archived;
                      final_archived =
                          set_pointer s s.final_datasets task_id dataset_id (q, found)
                            c.final_archived;
                      workspace_archived = c.workspace_archived;
                    })
            ]
      ]

module _ {Q : Type 0} where
  chosen-IsArchived :
      (task_id : Text) (s : Datasets Q) {d : Text}
      → IsClosed s
      → text_or (lookup task_id s.final_datasets) (lookup task_id s.latest_datasets) ≡ some d
      → IsArchived s task_id d
  unfolding text_or
  chosen-IsArchived task_id s {d} c h = elim (Option-cases (lookup task_id s.final_datasets)) [
    | inl e ↦ let h = rw e at h in c.latest_archived task_id d h
    | inr ([], e) ↦ let h = rw e at h in c.latest_archived task_id d h
    | inr (a ∷ f, e) ↦ let h = rw e at h in c.final_archived task_id d (e ∙ h)
  ]

  workspace_set :
      (s : Datasets Q) (conversation_id task_id dataset_id c t d : Text)
      → IsClosed s
      → IsArchived s task_id dataset_id
      → lookup c (insert conversation_id (task_id, dataset_id) s.session_workspaces) ≡ some (t, d)
      → IsArchived s t d
  workspace_set s conversation_id task_id dataset_id c t d closed a e =
      let looked = lookup-insert conversation_id c (task_id, dataset_id) s.session_workspaces in
      elim (Bool-cases (text_beq conversation_id c)) [
        | inl same ↦
            let e = rw (looked, same) at e in
            let first : task_id ≡ t = ground arith in
            let second : dataset_id ≡ d = ground arith in
            subst (λ i. IsArchived s i d) first (subst (λ j. IsArchived s task_id j) second a)
        | inr other ↦ let e = rw (looked, other) at e in closed.workspace_archived c t d e
      ]

  -- If every pointer of the store leads to an archived dataset, it does so after a promotion.
  pub promote_session_workspace-IsClosed :
      (conversation_id task_id : Text) (s : Datasets Q)
      → IsClosed s
      → IsClosed (promote_session_workspace conversation_id task_id s).0
  unfolding promote_session_workspace
  promote_session_workspace-IsClosed conversation_id task_id s c =
      elim (Option-cases
        (text_or (lookup task_id s.final_datasets) (lookup task_id s.latest_datasets))) [
          | inl e ↦ rw e c
          | inr (d, e) ↦ rw e (record {
            latest_archived = c.latest_archived;
            final_archived = c.final_archived;
            workspace_archived = λ w t x.
                workspace_set s conversation_id task_id d w t x c (chosen-IsArchived task_id s c e);
          })
        ]

  -- If every pointer of the store leads to an archived dataset and a promotion returns true, then
  -- the session's workspace is the archived dataset of the task's final pointer or else its latest
  -- one.
  pub promote_session_workspace_loads :
      (conversation_id task_id : Text) (s : Datasets Q)
      → IsClosed s
      → (promote_session_workspace conversation_id task_id s).1 ≡ true
      → (d : Text) × (q : Q) × (text_or
            (lookup task_id s.final_datasets)
            (lookup task_id s.latest_datasets)
          ≡ some d)
        × (lookup ⦃e = pair_eq⦄ (task_id, d) s.datasets ≡ some q)
        × (get_session_workspace conversation_id
              (promote_session_workspace conversation_id task_id s).0
            ≡ some q)
  unfolding promote_session_workspace get_session_workspace
  promote_session_workspace_loads conversation_id task_id s c h =
      elim (Option-cases
        (text_or (lookup task_id s.final_datasets) (lookup task_id s.latest_datasets))) [
          | inl e ↦ absurd (let h = rw e at h in ground arith)
          | inr (d, e) ↦
              let (q, found) = chosen-IsArchived task_id s c e in
              (
                d,
                q,
                e,
                found,
                rw e (
                    rw (lookup-insert_self conversation_id (task_id, d) s.session_workspaces)
                      found),
              )
        ]
