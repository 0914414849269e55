-- ===== src/Examples/Alerts.antt =====
-- vix/: the theorems on scans and commands, at concrete inputs.
use china_a_share.Prelude.{
  ◌≡◌, refl, ◌⊎◌, true, false, none, some, text, text_eq, [], ◌∷◌, All, Elem, filter, ok, raised,
  value_error, external_error, arith,
}
use china_a_share.Prelude.Maps.{lookup, insert, remove}
use china_a_share.Prelude.Texts.{lower}
use china_a_share.Prelude.Int.{ℤ, pos}
use china_a_share.Vix.Rules.{VixRule, up, days, new_vix_rule}
use china_a_share.Vix.Source.{VixQuote}
use china_a_share.Vix.Claims.{Key, has}
use china_a_share.Vix.Positions.{VixPosition, PositionStore, get, delete}
use china_a_share.Vix.Scanner.World.{Outside, Service, load_rules}
use china_a_share.Vix.Scanner.Deliver.{deliver_new_alerts, is_open}
use china_a_share.Vix.Scanner.Claiming.{Unique, alerted}
use china_a_share.Vix.Scanner.Once.{Hour, run_scans, run_scans_once}
use china_a_share.Vix.Scanner.Events.{IsDue, deliver_new_alerts-IsDue}
use china_a_share.Vix.Scanner.Opened.{deliver_new_alerts_opened}
use china_a_share.Vix.Commands.{
  Store, removed, added, remove_rule_reply, add_rule_reply, handle_command, same_id, asked_rule,
  save, add,
}
use china_a_share.Vix.Commands.Optionals.{
  rises, Tokens, OptionalFields, parse_optionals, any_exit, merged_rule,
}
use china_a_share.Vix.Commands.Laws.{AllValid, handle_command-AllValid}
use china_a_share.Vix.Commands.Removal.{Appended, remove_rule_reply_leaves, add_rule_reply_appends}
use china_a_share.Vix.Commands.ZeroDays.{zero_days}
use china_a_share.Examples.Numbers.{cents_float}

abbrev alert_rule : VixRule ℤ
alert_rule = record {
  id = text "r1";
  direction = up;
  threshold_pct = pos 1500;
  created_by = text "ou_1";
  created_at = text "now";
  expected_return_pct = pos 300;
  exit_kind = days;
  exit_days = 3;
  exit_vix_below = pos 0;
}

abbrev outside : Outside ℤ
outside = record { accepts = λ log chat m. true; index_close = λ log. ok (some (pos 500000)) }

abbrev spike : VixQuote ℤ
spike = record {
  date = text "2025-07-03";
  close = pos 1800;
  prev_close = pos 1500;
  change_pct = pos 2000;
  raw_last_time = text "2025-07-03";
}

abbrev service : Service ℤ
service = record {
  history = record { stored = none; cached = none; seeded = false };
  rules = (text "c1", alert_rule ∷ []) ∷ [];
  claims = [];
  positions = some [];
  log = [];
}

abbrev hour : Hour ℤ
hour = record {
  out = outside;
  fetched = raised external_error;
  quote = some spike;
  utc = record { date = record { year = 2025; month = 7; day = 3 }; hour = 18; seconds = 0 };
}

run_scans_once_example :
    let t = run_scans (hour ∷ hour ∷ []) service in
    Unique (alerted t.log) × ((k : Key) → has k t.claims ≡ has k (alerted t.log))
run_scans_once_example = run_scans_once (hour ∷ hour ∷ []) service refl refl

deliver_new_alerts-IsDue_example :
    All
      (λ k. Elem k (alerted service.log) ⊎ IsDue spike service k)
      (alerted (deliver_new_alerts outside spike service).0.log)
deliver_new_alerts-IsDue_example = deliver_new_alerts-IsDue outside spike service

deliver_new_alerts_opened_example :
    let t = (deliver_new_alerts outside spike service).0 in
    All (λ k. Elem k (alerted service.log) ⊎ (is_open t.positions k.0 k.1.0 ≡ true)) (alerted t.log)
deliver_new_alerts_opened_example = deliver_new_alerts_opened outside spike service [] refl

abbrev open_position : VixPosition ℤ
open_position = record {
  rule_id = text "r1";
  chat_id = text "c1";
  entry_date = text "2025-07-03";
  entry_vix = pos 1800;
  entry_index = none;
  expected_return_pct = pos 300;
  exit_kind = days;
  exit_days = 3;
  exit_vix_below = pos 0;
  direction = up;
  threshold_pct = pos 1500;
}

abbrev store : Store ℤ
store = record {
  rules = (text "c1", alert_rule ∷ []) ∷ [];
  positions = some (((text "c1", text "r1"), open_position) ∷ []);
}

abbrev no_store : Store ℤ
no_store = record { rules = []; positions = some [] }

no_store-AllValid : AllValid no_store
unfolding load_rules lookup
no_store-AllValid = tt

abbrev tokens : Tokens ℤ
tokens = record {
  trigger = some (rises, pos 1500);
  expected = some (pos 300);
  after_days = some 3;
  vix_under = none;
  no_sale = false;
}

handle_command-AllValid_example :
    AllValid
      (handle_command
        (text "now")
        (text "r1")
        (text "ou_1")
        (text "c1")
        (add rises (pos 1500) tokens)
        no_store).0
handle_command-AllValid_example =
    handle_command-AllValid (text "now") (text "r1") (text "ou_1") (text "c1")
      (add rises (pos 1500) tokens) no_store no_store-AllValid

abbrev after_add : Store ℤ
after_add = record { rules = (text "c1", alert_rule ∷ []) ∷ []; positions = some [] }

add_confirmed :
    add_rule_reply
      (text "now")
      (text "r1")
      (text "ou_1")
      (text "c1")
      rises
      (pos 1500)
      tokens
      no_store
    ≡ (after_add, added alert_rule 1 false false)
unfolding add_rule_reply parse_optionals new_vix_rule load_rules lookup insert any_exit
add_confirmed = refl

add_rule_reply_appends_example : Appended (text "c1") (text "r1") no_store after_add alert_rule 1
add_rule_reply_appends_example =
    add_rule_reply_appends (text "now") (text "r1") (text "ou_1") (text "c1") rises (pos 1500)
      tokens no_store add_confirmed

abbrev after_remove : Store ℤ
after_remove = record {
  rules = (text "c1", []) ∷ [];
  positions = some (((text "c1", text "r1"), open_position) ∷ []);
}

remove_confirmed :
    remove_rule_reply (text "c1") (text "R1") store ≡ (after_remove, removed (text "R1") 0)
unfolding remove_rule_reply load_rules lookup filter same_id lower save insert delete remove
remove_confirmed = refl

remove_rule_reply_leaves_example :
    (after : PositionStore ℤ) × (after_remove.positions ≡ some after)
    × (get (text "c1") (text "r1") after
        ≡ get (text "c1") (text "r1") (((text "c1", text "r1"), open_position) ∷ []))
remove_rule_reply_leaves_example =
    remove_rule_reply_leaves (text "c1") (text "R1") (text "R1") (text "r1") 0 store
      (((text "c1", text "r1"), open_position) ∷ []) refl remove_confirmed (λ e. ground (arith, e))

abbrev asks_no_days : OptionalFields ℤ
asks_no_days = record {
  direction = none;
  threshold = none;
  expected = some (pos 300);
  exit_kind = some days;
  exit_days = some 0;
  exit_vix_below = none;
}

zero_days_example :
    ((x : VixRule ℤ)
      → asked_rule (text "now") (text "r1") (text "ou_1") rises (pos 1500) asks_no_days ≡ ok x
      → x.exit_days ≡ 1)
    × (merged_rule (text "now") alert_rule asks_no_days ≡ raised value_error)
zero_days_example =
    zero_days (text "now") (text "r1") (text "ou_1") rises (pos 1500) alert_rule asks_no_days refl
      refl
