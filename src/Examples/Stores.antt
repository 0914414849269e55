-- ===== src/Examples/Stores.antt =====
-- strategy_store.py and strategy_models.py: the theorems on the stores, at concrete inputs.
use china_a_share.Prelude.{
  ℕ, Bool, true, false, any, text_lt, ◌≡◌, refl, Option, none, some, Text, text, text_eq, List, [],
  ◌∷◌, filter, map, Elem, ok,
}
use china_a_share.Prelude.Maps.{Dict, lookup, insert, remove, lookup-insert, lookup-remove}
use china_a_share.Prelude.Texts.{contains, starts_with}
use china_a_share.Prelude.Int.{ℤ}
use china_a_share.Strategies.Models.{StrategyConfig, buy, limit_up}
use china_a_share.Cache.Record.{Instant}
use china_a_share.Strategies.Sorting.{sort_by, insert_by, IsSorted}
use china_a_share.Strategies.Store.Lists.{list_strategies_lem}
use china_a_share.Strategies.Store.{
  Owned, owned_by, validate_identifier, list_strategies, strategy_id_of, matches_enabled, is_marked,
  mark_notification_sent, is_notification_sent,
}
use china_a_share.Strategies.Store.Cloud.{Bucket, Codec, cloud_mark_sent, cloud_is_sent}
use china_a_share.Strategies.Store.Refinement.{IsBucket, IsCodec, IsRepresented}
use china_a_share.Strategies.Store.Runs.{
  Call, getting, deleting, putting, run_memory, run_cloud, run_cloud-run_memory,
}
use china_a_share.Strategies.Store.Marked.{Marking, mark_memory, mark_cloud, mark_cloud-mark_memory}
use china_a_share.Strategies.Store.Marks.{
  IsMarked, IsMarkSimulated, cloud_mark_sent-mark_notification_sent,
}

-- A bucket in memory, and records that are their own owner's name.
abbrev Objects : Type 0
Objects = Dict Text Text

abbrev created_in : Option Text → Text → Text → Objects → Option Objects
created_in none n content b = some (insert n content b)
created_in (some found) n content b = none

abbrev objects : Bucket Objects
objects = record {
  download = lookup;
  upload = insert;
  erase = remove;
  create_only = λ n content b. created_in (lookup n b) n content b;
  list_blobs = λ prefix b. filter (starts_with prefix) (map (λ e. e.0) b);
}

objects-IsBucket : IsBucket objects
objects-IsBucket = record {
  download-upload = λ m n content b. lookup-insert m n content b;
  download-erase = λ m n b. lookup-remove m n b;
  create_only-absent = λ n content b h. rw h refl;
  create_only-present = λ n content found b h. rw h refl;
}

abbrev names : Codec Text
names = record { dump = λ a. a; load = ok }

names-IsCodec : IsCodec names
names-IsCodec a = refl

abbrev own : Text → Text
own a = a

abbrev id_one : Text → Text
id_one a = text "one"

abbrev no_objects : Objects
no_objects = []

abbrev some_calls : List (Call Text)
some_calls =
    putting (text "ou_1") (text "ou_1")
    ∷ getting (text "one") (text "ou_1")
    ∷ getting (text "one") (text "ou_2")
    ∷ putting (text "ou_1") (text "ou_2")
    ∷ deleting (text "one") (text "ou_1")
    ∷ getting (text "one") (text "ou_1")
    ∷ []

no_objects-IsRepresented :
    IsRepresented objects names own id_one (text "strategies/configs/") [] no_objects
unfolding lookup
no_objects-IsRepresented = record { same = λ o i h. refl; owned = λ o i a h. absurd (cc) }

run_cloud-run_memory_example :
    run_cloud objects names own id_one (text "strategies/configs/") some_calls no_objects
    ≡ run_memory objects names own id_one (text "strategies/configs/") some_calls []
run_cloud-run_memory_example =
    run_cloud-run_memory objects names own id_one (text "strategies/configs/") some_calls []
      no_objects objects-IsBucket names-IsCodec no_objects-IsRepresented

no_objects-IsMarked : IsMarked objects [] no_objects
unfolding lookup is_marked
no_objects-IsMarked = record { same = λ s c d k h. refl }

cloud_mark_sent-mark_notification_sent_example :
    IsMarkSimulated objects
      (mark_notification_sent (text "s1") (text "600000.SH") (text "20260102") buy [])
      (cloud_mark_sent objects
        (text "{}")
        (text "s1")
        (text "600000.SH")
        (text "20260102")
        buy
        no_objects)
cloud_mark_sent-mark_notification_sent_example =
    cloud_mark_sent-mark_notification_sent objects objects-IsBucket (text "{}") (text "s1")
      (text "600000.SH") (text "20260102") buy [] no_objects no_objects-IsMarked

abbrev two_markings : List Marking
two_markings =
    record {
      content = text "{}";
      strategy_id = text "s1";
      stock_code = text "600000.SH";
      signal_date = text "20260102";
      direction = buy;
    }
    ∷ record {
      content = text "{}";
      strategy_id = text "s/1";
      stock_code = text "600000.SH";
      signal_date = text "20260102";
      direction = buy;
    }
    ∷ []

no_objects-empty : (name : Text) → lookup name no_objects ≡ none
unfolding lookup
no_objects-empty name = refl

mark_cloud-mark_memory_example :
    cloud_is_sent objects
      (text "s1")
      (text "600000.SH")
      (text "20260105")
      buy
      (mark_cloud objects two_markings no_objects)
    ≡ is_notification_sent
        (text "s1")
        (text "600000.SH")
        (text "20260105")
        buy
        (mark_memory two_markings [])
mark_cloud-mark_memory_example =
    mark_cloud-mark_memory objects objects-IsBucket two_markings no_objects (text "s1")
      (text "600000.SH") (text "20260105") buy no_objects-empty

abbrev some_time : Instant
some_time = record { aware = true; time = 100 }

abbrev named_strategy : Text → Bool → StrategyConfig ℤ ℕ
named_strategy id enabled = record {
  id = id;
  name = text "m";
  direction = buy;
  rules = limit_up 1 ∷ [];
  compiled_rule = none;
  creator_open_id = text "ou_1";
  enabled = enabled;
  notification_chat_id = text "oc_1";
  created_at = some_time;
  updated_at = some_time;
}

abbrev three_strategies : Owned (StrategyConfig ℤ ℕ)
three_strategies =
    ((text "ou_1", text "b"), named_strategy (text "b") true)
    ∷ ((text "ou_1", text "c"), named_strategy (text "c") false)
    ∷ ((text "ou_1", text "a"), named_strategy (text "a") true)
    ∷ []

abbrev listed : List (StrategyConfig ℤ ℕ)
listed = named_strategy (text "a") true ∷ named_strategy (text "b") true ∷ []

three_strategies-listed : list_strategies (text "ou_1") (some true) three_strategies ≡ ok listed
unfolding list_strategies validate_identifier any contains starts_with filter owned_by sort_by
    insert_by text_lt
three_strategies-listed = refl

list_strategies_lem_example :
    IsSorted strategy_id_of listed
    × ((s : StrategyConfig ℤ ℕ) (id : Text)
        → Elem ((text "ou_1", id), s) three_strategies
        → matches_enabled (some true) s ≡ true
        → Elem s listed)
    × ((s : StrategyConfig ℤ ℕ)
        → Elem s listed
        → ((id : Text) × Elem ((text "ou_1", id), s) three_strategies)
          × (matches_enabled (some true) s ≡ true))
list_strategies_lem_example =
    list_strategies_lem (text "ou_1") (some true) three_strategies three_strategies-listed
