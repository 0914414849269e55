-- ===== src/Strategies/Store/Cloud.antt =====
-- strategy_store.py: `CloudStorageStrategyStore`. The bucket and the JSON of a record are parameters;
-- a configuration and a draft are kept alike, under their own prefix.
use china_a_share.Prelude.{
  Bool, true, Option, none, some, Text, text, text_beq, List, [], ◌∷◌, ◌++◌, filter, Result, ok,
  raised, permission_error, external_error, require, ◌>>=◌, ◌>>◌,
}
use china_a_share.Strategies.Models.{SignalDirection, StrategyConfig, StrategyDraft, is_some}
use china_a_share.Strategies.Sorting.{sort_by}
use china_a_share.Strategies.Store.{
  validate_identifier, validate_notification, creator_of, strategy_id_of, draft_id_of, draft_owner,
  matches_enabled,
}
use china_a_share.Strategies.Store.Names.{owned_name, marker_name}

-- The calls of a bucket of texts that the store makes; `create_only` is an upload on the condition
-- that the object has no generation yet, and gives nothing where that fails.
pub record Bucket (B : Type 0) : Type 0 where
  pub download : Text → B → Option Text
  pub upload : Text → Text → B → B
  pub erase : Text → B → B
  pub create_only : Text → Text → B → Option B
  pub list_blobs : Text → B → List Text

-- `model_dump_json` and `model_validate(json.loads(...))`
pub record Codec (A : Type 0) : Type 0 where
  pub dump : A → Text
  pub load : Text → Result A

module _ {A B : Type 0} (bucket : Bucket B) (codec : Codec A) (owner_of id_of : A → Text)
    (prefix : Text) where
  open bucket use {download, upload, erase, list_blobs}
  open codec use {dump, load}

  -- An object that is there must load and belong to the owner.
  unfoldable pub check_owned : Text → Option Text → Result (Option A)
  check_owned owner none = ok none
  check_owned owner (some content) = do
    a ← load content
    require (text_beq (owner_of a) owner) permission_error
    ok (some a)

  unfoldable pub cloud_get : Text → Text → B → Result (Option A)
  cloud_get id owner b = do
    validate_identifier id
    validate_identifier owner
    check_owned owner (download (owned_name prefix owner id) b)

  unfoldable pub cloud_put : A → Text → B → Result B
  cloud_put a owner b = do
    validate_identifier (id_of a)
    validate_identifier owner
    validate_identifier (owner_of a)
    require (text_beq (owner_of a) owner) permission_error
    existing ← check_owned owner (download (owned_name prefix owner (id_of a)) b)
    ok (upload (owned_name prefix owner (id_of a)) (dump a) b)

  unfoldable pub erase_found : Option A → Text → B → B
  erase_found none name b = b
  erase_found (some a) name b = erase name b

  unfoldable pub cloud_delete : Text → Text → B → Result B
  cloud_delete id owner b = do
    validate_identifier id
    validate_identifier owner
    existing ← check_owned owner (download (owned_name prefix owner id) b)
    ok (erase_found existing (owned_name prefix owner id) b)

  -- An object that is listed and is gone by now raises.
  unfoldable pub present : Option A → Result A
  present none = raised external_error
  present (some a) = ok a

  unfoldable pub load_listed : Text → List Text → B → Result (List A)
  load_listed owner [] b = ok []
  load_listed owner (name ∷ names) b = do
    found ← check_owned owner (download name b)
    a ← present found
    rest ← load_listed owner names b
    ok (a ∷ rest)

  unfoldable pub cloud_list : Text → B → Result (List A)
  cloud_list owner b = do
    validate_identifier owner
    load_listed owner (list_blobs (prefix ++ owner ++ b'/' ∷ []) b) b

abbrev pub present_text : Option Text → Result Text
present_text none = raised external_error
present_text (some content) = ok content

module _ {F S B : Type 0} (bucket : Bucket B) (configs : Codec (StrategyConfig F S))
    (drafts : Codec (StrategyDraft F S)) where
  abbrev pub config_prefix : Text
  config_prefix = text "strategies/configs/"

  abbrev pub draft_prefix : Text
  draft_prefix = text "strategies/drafts/"

  unfoldable pub cloud_get_strategy : Text → Text → B → Result (Option (StrategyConfig F S))
  cloud_get_strategy = cloud_get bucket configs creator_of strategy_id_of config_prefix

  unfoldable pub cloud_put_strategy : StrategyConfig F S → Text → B → Result B
  cloud_put_strategy = cloud_put bucket configs creator_of strategy_id_of config_prefix

  unfoldable pub cloud_delete_strategy : Text → Text → B → Result B
  cloud_delete_strategy = cloud_delete bucket configs creator_of strategy_id_of config_prefix

  unfoldable pub cloud_list_strategies : Text → Option Bool → B → Result (List (StrategyConfig F S))
  cloud_list_strategies owner enabled b = do
    found ← cloud_list bucket configs creator_of strategy_id_of config_prefix owner b
    ok (sort_by strategy_id_of (filter (matches_enabled enabled) found))

  -- Every configuration of the bucket, whoever owns it.
  unfoldable pub load_all : List Text → B → Result (List (StrategyConfig F S))
  load_all [] b = ok []
  load_all (name ∷ names) b = do
    content ← present_text (bucket.download name b)
    s ← configs.load content
    rest ← load_all names b
    ok (s ∷ rest)

  unfoldable pub cloud_list_enabled : B → Result (List (StrategyConfig F S))
  cloud_list_enabled b = do
    found ← load_all (bucket.list_blobs config_prefix b) b
    ok (sort_by creator_of (sort_by strategy_id_of (filter (λ s. s.enabled) found)))

  unfoldable pub cloud_get_draft : Text → Text → B → Result (Option (StrategyDraft F S))
  cloud_get_draft = cloud_get bucket drafts draft_owner draft_id_of draft_prefix

  unfoldable pub cloud_put_draft : StrategyDraft F S → Text → B → Result B
  cloud_put_draft = cloud_put bucket drafts draft_owner draft_id_of draft_prefix

  unfoldable pub cloud_delete_draft : Text → Text → B → Result B
  cloud_delete_draft = cloud_delete bucket drafts draft_owner draft_id_of draft_prefix

  unfoldable pub cloud_list_drafts : Text → B → Result (List (StrategyDraft F S))
  cloud_list_drafts owner b = do
    found ← cloud_list bucket drafts draft_owner draft_id_of draft_prefix owner b
    ok (sort_by draft_id_of found)

-- The failed condition leaves the bucket as it is.
unfoldable pub created : {B : Type 0} → B → Option B → B
created b none = b
created b (some c) = c

-- The content is the marker's JSON with its time.
unfoldable pub cloud_mark_sent :
    {B : Type 0}
    → Bucket B
    → (content strategy_id stock_code signal_date : Text) → SignalDirection
    → B
    → Result (B × Bool)
cloud_mark_sent bucket content strategy_id stock_code signal_date direction b = do
  validate_notification strategy_id stock_code signal_date direction
  ok (
    created b
        (bucket.create_only (marker_name strategy_id stock_code signal_date direction) content b),
    true,
  )

unfoldable pub cloud_is_sent :
    {B : Type 0}
    → Bucket B
    → (strategy_id stock_code signal_date : Text) → SignalDirection
    → B
    → Result Bool
cloud_is_sent bucket strategy_id stock_code signal_date direction b = do
  validate_notification strategy_id stock_code signal_date direction
  ok (is_some (bucket.download (marker_name strategy_id stock_code signal_date direction) b))
