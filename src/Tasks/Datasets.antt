-- ===== src/Tasks/Datasets.antt =====
-- tasks.py: `MemoryAnalysisTaskStore`, its artifacts, its datasets, and the workspace of a session.
-- The name of a path, `Path(...).name`, and the content of a dataset are arguments.
pub mod Laws
use china_a_share.Prelude.{
  ℕ, Bool, true, false, ◌&&◌, ◌||◌, not, Option, none, some, Text, text, text_eq, text_beq, pair_eq,
  Eq, leb, nat_beq, List, [], ◌∷◌, Result, Fault, ok, raised, value_error, require, ◌>>=◌, ◌>>◌,
  is_nil,
}
use china_a_share.Prelude.Maps.{Dict, lookup, insert}

pub record Datasets (Q : Type 0) : Type 0 where
  pub artifacts : Dict (Text × Text) Text
  pub datasets : Dict (Text × Text) Q
  pub latest_datasets : Dict Text Text
  pub final_datasets : Dict Text Text
  pub session_workspaces : Dict Text (Text × Text)

abbrev is_identifier_char : ℕ → Bool
is_identifier_char c =
    (leb b'A' c && leb c b'Z')
    || (leb b'a' c && leb c b'z')
    || (leb b'0' c && leb c b'9')
    || nat_beq c b'_'
    || nat_beq c b'-'

abbrev all_identifier_chars : Text → Bool
all_identifier_chars [] = true
all_identifier_chars (c ∷ s) = is_identifier_char c && all_identifier_chars s

-- `[A-Za-z0-9_-]+`, matched in full.
unfoldable pub is_identifier : Text → Bool
is_identifier [] = false
is_identifier (c ∷ s) = is_identifier_char c && all_identifier_chars s

unfoldable pub validate_artifact_identity : (Text → Text) → Text → Text → Result (Unit {0})
validate_artifact_identity path_name task_id artifact_name = do
  require (is_identifier task_id) value_error
  require (not (is_nil artifact_name) && text_beq artifact_name (path_name artifact_name))
      value_error
  ok tt

unfoldable pub validate_dataset_identity : (Text → Text) → Text → Text → Result (Unit {0})
validate_dataset_identity path_name task_id dataset_id = do
  validate_artifact_identity path_name task_id (text "dataset")
  require (is_identifier dataset_id) value_error
  ok tt

-- `a or b`, of texts that may be missing or empty.
unfoldable pub text_or : Option Text → Option Text → Option Text
text_or none b = b
text_or (some []) b = b
text_or (some (c ∷ s)) b = some (c ∷ s)

module _ {Q : Type 0} (path_name : Text → Text) where
  unfoldable pub put_artifact : Text → Text → Text → Datasets Q → Result (Datasets Q)
  put_artifact task_id path content s = do
    validate_artifact_identity path_name task_id (path_name path)
    ok (record s { artifacts = insert ⦃e = pair_eq⦄ (task_id, path_name path) content s.artifacts })

  unfoldable pub get_artifact : Text → Text → Datasets Q → Result (Option Text)
  get_artifact task_id artifact_name s = do
    validate_artifact_identity path_name task_id artifact_name
    ok (lookup ⦃e = pair_eq⦄ (task_id, artifact_name) s.artifacts)

  unfoldable pub archive_dataset : Text → Text → Q → Datasets Q → Result (Datasets Q)
  archive_dataset task_id query_id q s = do
    validate_dataset_identity path_name task_id query_id
    ok (record s {
      datasets = insert ⦃e = pair_eq⦄ (task_id, query_id) q s.datasets;
      latest_datasets = insert task_id query_id s.latest_datasets;
    })

  abbrev pub marked : Text → Text → Datasets Q → Option Q → Result (Datasets Q)
  marked task_id dataset_id s none = raised value_error
  marked task_id dataset_id s (some q) =
      ok (record s { final_datasets = insert task_id dataset_id s.final_datasets })

  unfoldable pub mark_final_dataset : Text → Text → Datasets Q → Result (Datasets Q)
  mark_final_dataset task_id dataset_id s = do
    validate_dataset_identity path_name task_id dataset_id
    marked task_id dataset_id s (lookup ⦃e = pair_eq⦄ (task_id, dataset_id) s.datasets)

module _ {Q : Type 0} where
  abbrev pub promoted : Text → Text → Datasets Q → Option Text → Datasets Q × Bool
  promoted conversation_id task_id s none = (s, false)
  promoted conversation_id task_id s (some dataset_id) = (
    record s {
      session_workspaces = insert conversation_id (task_id, dataset_id) s.session_workspaces;
    },
    true,
  )

  unfoldable pub promote_session_workspace : Text → Text → Datasets Q → Datasets Q × Bool
  promote_session_workspace conversation_id task_id s =
      promoted conversation_id task_id s
        (text_or (lookup task_id s.final_datasets) (lookup task_id s.latest_datasets))

  abbrev pub dataset_at : Datasets Q → Option (Text × Text) → Option Q
  dataset_at s none = none
  dataset_at s (some identity) = lookup ⦃e = pair_eq⦄ identity s.datasets

  unfoldable pub get_session_workspace : Text → Datasets Q → Option Q
  get_session_workspace conversation_id s =
      dataset_at s (lookup conversation_id s.session_workspaces)
