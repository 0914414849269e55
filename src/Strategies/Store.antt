-- ===== src/Strategies/Store.antt =====
-- strategy_store.py: `MemoryStrategyStore`. Strategies and drafts are kept alike, as records of an
-- owner with an identifier; a list of strategies is sorted, one of drafts is not.
pub mod Names
pub mod Cloud
pub mod Refinement
pub mod Runs
pub mod Marks
pub mod Marked
pub mod Lists
use china_a_share.Prelude.{
  ℕ, Bool, true, false, not, ◌&&◌, ◌||◌, Option, none, some, Text, text, text_eq, text_beq, pair_eq,
  Eq, ◌==◌, leb, ltb, nat_beq, List, [], ◌∷◌, any, filter, is_nil, Result, Fault, ok, raised,
  value_error, permission_error, require, ◌>>=◌, ◌>>◌, if◌then◌else◌,
}
use china_a_share.Prelude.Maps.{Dict, lookup, insert, remove}
use china_a_share.Prelude.Texts.{contains}
use china_a_share.Strategies.Models.{SignalDirection, buy, sell, StrategyConfig, StrategyDraft}
use china_a_share.Strategies.Sorting.{sort_by}

abbrev is_control : ℕ → Bool
is_control c = ltb c 32 || nat_beq c 127

unfoldable pub validate_identifier : Text → Result (Unit {0})
validate_identifier s = do
  require (not (is_nil s)) value_error
  require (not (any (λ c. nat_beq c b'/' || nat_beq c 0x5c) s)) value_error
  require (not (contains (text "..") s)) value_error
  require (not (any is_control s)) value_error
  ok tt

abbrev pub Owned : Type 0 → Type 0
Owned A = Dict (Text × Text) A

-- The values under the keys of one owner, in their order.
unfoldable pub owned_by : {A : Type 0} → Text → Owned A → List A
owned_by owner [] = []
owned_by owner (((o, i), a) ∷ d) =
    let rest = owned_by owner d in if text_beq o owner then a ∷ rest else rest

unfoldable pub all_values : {A : Type 0} → Owned A → List A
all_values [] = []
all_values ((k, a) ∷ d) = a ∷ all_values d

unfoldable pub get_owned : {A : Type 0} → Text → Text → Owned A → Result (Option A)
get_owned id owner d = do
  validate_identifier id
  validate_identifier owner
  ok (lookup ⦃e = pair_eq⦄ (owner, id) d)

unfoldable pub delete_owned : {A : Type 0} → Text → Text → Owned A → Result (Owned A)
delete_owned id owner d = do
  validate_identifier id
  validate_identifier owner
  ok (remove ⦃e = pair_eq⦄ (owner, id) d)

module _ {A : Type 0} (owner_of id_of : A → Text) where
  unfoldable pub put_owned : A → Text → Owned A → Result (Owned A)
  put_owned a owner d = do
    validate_identifier (id_of a)
    validate_identifier owner
    validate_identifier (owner_of a)
    require (text_beq (owner_of a) owner) permission_error
    ok (insert ⦃e = pair_eq⦄ (owner, id_of a) a d)

-- A notification: strategy and stock, then date and direction.
abbrev pub Notification : Type 0
Notification = (Text × Text) × (Text × Text)

instance abbrev pub notification_eq : Eq Notification
notification_eq = pair_eq ⦃e = pair_eq⦄ ⦃f = pair_eq⦄

abbrev pub direction_text : SignalDirection → Text
direction_text buy = text "buy"
direction_text sell = text "sell"

unfoldable pub is_marked : Notification → List Notification → Bool
is_marked n [] = false
is_marked n (m ∷ ms) = notification_eq.beq m n || is_marked n ms

abbrev pub notification : Text → Text → Text → SignalDirection → Notification
notification strategy_id stock_code signal_date direction =
    ((strategy_id, stock_code), (signal_date, direction_text direction))

unfoldable pub validate_notification : Text → Text → Text → SignalDirection → Result (Unit {0})
validate_notification strategy_id stock_code signal_date direction = do
  validate_identifier strategy_id
  validate_identifier stock_code
  validate_identifier signal_date
  validate_identifier (direction_text direction)
  ok tt

unfoldable pub mark_notification_sent :
    Text → Text → Text → SignalDirection → List Notification → Result (List Notification × Bool)
mark_notification_sent strategy_id stock_code signal_date direction sent = do
  validate_notification strategy_id stock_code signal_date direction
  let identity = notification strategy_id stock_code signal_date direction
  ok (if is_marked identity sent then sent else identity ∷ sent, true)

unfoldable pub is_notification_sent :
    Text → Text → Text → SignalDirection → List Notification → Result Bool
is_notification_sent strategy_id stock_code signal_date direction sent = do
  validate_notification strategy_id stock_code signal_date direction
  ok (is_marked (notification strategy_id stock_code signal_date direction) sent)

pub record MemoryStore (F S : Type 0) : Type 0 where
  pub strategies : Owned (StrategyConfig F S)
  pub drafts : Owned (StrategyDraft F S)
  pub notifications : List Notification

abbrev pub bool_beq : Bool → Bool → Bool
bool_beq a b = if a then b else not b

module _ {F S : Type 0} where
  abbrev pub creator_of : StrategyConfig F S → Text
  creator_of s = s.creator_open_id

  abbrev pub strategy_id_of : StrategyConfig F S → Text
  strategy_id_of s = s.id

  abbrev pub draft_owner : StrategyDraft F S → Text
  draft_owner d = d.owner_open_id

  abbrev pub draft_id_of : StrategyDraft F S → Text
  draft_id_of d = d.draft_id

  unfoldable pub get_strategy :
      Text → Text → Owned (StrategyConfig F S) → Result (Option (StrategyConfig F S))
  get_strategy = get_owned

  unfoldable pub put_strategy :
      StrategyConfig F S → Text → Owned (StrategyConfig F S) → Result (Owned (StrategyConfig F S))
  put_strategy = put_owned creator_of strategy_id_of

  unfoldable pub delete_strategy :
      Text → Text → Owned (StrategyConfig F S) → Result (Owned (StrategyConfig F S))
  delete_strategy = delete_owned

  abbrev pub matches_enabled : Option Bool → StrategyConfig F S → Bool
  matches_enabled none s = true
  matches_enabled (some b) s = bool_beq s.enabled b

  unfoldable pub list_strategies :
      Text → Option Bool → Owned (StrategyConfig F S) → Result (List (StrategyConfig F S))
  list_strategies owner enabled d = do
    validate_identifier owner
    ok (sort_by strategy_id_of (filter (matches_enabled enabled) (owned_by owner d)))

  unfoldable pub list_drafts : Text → Owned (StrategyDraft F S) → Result (List (StrategyDraft F S))
  list_drafts owner d = do validate_identifier owner; ok (owned_by owner d)

  unfoldable pub get_draft :
      Text → Text → Owned (StrategyDraft F S) → Result (Option (StrategyDraft F S))
  get_draft = get_owned

  unfoldable pub put_draft :
      StrategyDraft F S → Text → Owned (StrategyDraft F S) → Result (Owned (StrategyDraft F S))
  put_draft = put_owned draft_owner draft_id_of

  unfoldable pub delete_draft :
      Text → Text → Owned (StrategyDraft F S) → Result (Owned (StrategyDraft F S))
  delete_draft = delete_owned

  -- A stable sort by the identifier and then by the creator is the sort by the pair of both.
  unfoldable pub list_enabled_strategies : Owned (StrategyConfig F S) → List (StrategyConfig F S)
  list_enabled_strategies d =
      sort_by creator_of (sort_by strategy_id_of (filter (λ s. s.enabled) (all_values d)))
