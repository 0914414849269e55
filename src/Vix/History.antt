-- ===== src/Vix/History.antt =====
-- vix/history.py: the series of daily closes, its first filling from the FRED file, and the recording
-- of settlements. A method returns the new state with its result or exception.
pub mod Order
pub mod Greatest
pub mod Laws
pub mod Lookup
use china_a_share.Prelude.{
  ℕ, Bool, true, false, ◌&&◌, ◌||◌, not, Option, none, some, Text, text, text_lt, text_eq, text_beq,
  ◌==◌, Eq, leb, if◌then◌else◌, List, [], ◌∷◌, Result, ok, raised, value_error, any, filter, is_nil,
  ◌>>=◌, ◌>>◌, require,
}
use china_a_share.Prelude.Maps.{Dict, lookup, insert}
use china_a_share.Prelude.Texts.{strip}
use china_a_share.Floats.{Float}
use china_a_share.Dates.{Date, date_le}
use china_a_share.Dates.Print.{isoformat, from_isoformat}

abbrev pub Closes : Type 0 → Type 0
Closes F = Dict Text F

-- The store's object, the copy that the history keeps, and whether this process has seeded it.
pub record History (F : Type 0) : Type 0 where
  pub stored : Option (Closes F)
  pub cached : Option (Closes F)
  pub seeded : Bool

-- What `csv.DictReader` reads: the header and, of each row, its date and its value, empty where the
-- row has none.
pub record FredFile : Type 0 where
  pub fieldnames : Option (List Text)
  pub rows : List (Text × Text)

module _ {F : Type 0} where
  unfoldable pub keys : Closes F → List Text
  keys [] = []
  keys ((k, v) ∷ d) = k ∷ keys d

  -- `dict(sorted(d.items()))`
  unfoldable pub insert_sorted : Text → F → Closes F → Closes F
  insert_sorted k v [] = (k, v) ∷ []
  insert_sorted k v ((j, w) ∷ d) =
      if text_lt j k then (j, w) ∷ insert_sorted k v d else (k, v) ∷ (j, w) ∷ d

  unfoldable pub sort_items : Closes F → Closes F
  unfolding insert_sorted
  sort_items [] = []
  sort_items ((k, v) ∷ d) = insert_sorted k v (sort_items d)

  abbrev pub or_empty : Option (Closes F) → Closes F
  or_empty none = []
  or_empty (some d) = d

  -- `_load`: the cached closes, taken from the store at the first call.
  unfoldable pub load : History F → History F
  load h = elim h.cached [ none ↦ record h { cached = some (or_empty h.stored) } | some d ↦ h ]

  abbrev pub current : History F → Closes F
  current h = or_empty h.cached

  unfoldable pub put_closes : Closes F → History F → History F
  put_closes d h = record h { stored = some d }

  -- The append itself.
  unfoldable pub append_close : Text → F → History F → History F
  unfolding put_closes sort_items
  append_close date close h =
      let closes = insert date close (current h) in
      put_closes (sort_items closes) (record h { cached = some closes })

-- `max` of a list of strings that begins with `best`.
unfoldable pub greater : Text → Text → Text
greater best k = if text_lt best k then k else best

unfoldable pub max_text : Text → List Text → Text
max_text best [] = best
max_text best (k ∷ ks) = max_text (greater best k) ks

abbrev pub member : Text → List Text → Bool
member k = any (text_beq k)

abbrev pub has_column : Option (List Text) → Bool
has_column none = false
has_column (some names) = member (text "observation_date") names

-- Whether a date is not later than the latest key; an empty series has no latest key.
unfoldable pub not_newer_than : Date → Option Date → Result Bool
not_newer_than parsed none = raised value_error
not_newer_than parsed (some latest) = ok (date_le parsed latest)

unfoldable pub not_newer : Date → List Text → Result Bool
not_newer parsed [] = ok false
not_newer parsed (k ∷ ks) = not_newer_than parsed (from_isoformat (max_text k ks))

unfoldable pub max_of : List Text → Option Text
max_of [] = none
max_of (k ∷ ks) = some (max_text k ks)

-- The greatest key before a date, if there is one.
unfoldable pub previous_key : Text → List Text → Option Text
previous_key date ks = max_of (filter (λ k. text_lt k date) ks)

module _ {F : Type 0} ⦃f : Float F⦄ where
  open f use {le, lt, cents, of_text}

  -- One row of the loop.
  unfoldable pub add_row : Text × Text → Closes F → Closes F
  add_row (raw_date, raw_value) closes =
      let day = strip raw_date in
      let value = strip raw_value in
      if is_nil day || text_beq value (text ".") || is_nil value
      then closes
      else elim (from_isoformat day) [
        | none ↦ closes
        | some d ↦ elim (of_text value) [
          | none ↦ closes
          | some x ↦ if lt (cents 0) x then insert (isoformat d) x closes else closes
        ]
      ]

  unfoldable pub add_rows : List (Text × Text) → Closes F → Closes F
  unfolding add_row
  add_rows [] closes = closes
  add_rows (r ∷ rows) closes = add_rows rows (add_row r closes)

  unfoldable pub parse_fred_vixcls_csv : FredFile → Result (Closes F)
  unfolding add_rows
  parse_fred_vixcls_csv file = do
    require (has_column file.fieldnames) value_error
    let closes = add_rows file.rows []
    require (not (is_nil closes)) value_error
    ok closes

  -- What the download gives is an argument, read only where the code fetches.
  unfoldable pub ensure_seeded : Result FredFile → History F → History F × Result Bool
  unfolding load put_closes sort_items
  ensure_seeded fetched h =
      let h' = load h in
      if h'.seeded || not (is_nil (current h'))
      then (h', ok false)
      else elim (fetched >>= parse_fred_vixcls_csv) [
        | raised e ↦ (h', raised e)
        | ok closes ↦
            let sorted = sort_items closes in
            (put_closes sorted (record h' { cached = some sorted; seeded = true }), ok true)
      ]

  unfoldable pub record_settlement : Text → F → History F → History F × Result Bool
  unfolding load not_newer append_close keys
  record_settlement date close h =
      if le close (cents 0) then (h, raised value_error) else elim (from_isoformat date) [
        | none ↦ (h, raised value_error)
        | some parsed ↦
            let h' = load h in
            elim (not_newer parsed (keys (current h'))) [
              | raised e ↦ (h', raised e)
              | ok true ↦ (h', ok false)
              | ok false ↦ (append_close date close h', ok true)
            ]
      ]

module _ {F : Type 0} where
  abbrev pub value_at : Text → Closes F → F → F
  value_at k d other = elim (lookup k d) [ none ↦ other | some v ↦ v ]

  -- `lookup`: the previous date, its close, and the close of a date.
  unfoldable pub lookup_day : Text → Closes F → Option (Text × F × F)
  unfolding previous_key keys
  lookup_day date closes = elim (lookup date closes) [
    | none ↦ none
    | some close ↦ elim (previous_key date (keys closes)) [
      | none ↦ none
      | some prev ↦ some (prev, value_at prev closes close, close)
    ]
  ]

  unfoldable pub latest : Closes F → Option (Text × F)
  unfolding max_text
  latest [] = none
  latest ((k, v) ∷ d) = let best = max_text k (keys d) in some (best, value_at best ((k, v) ∷ d) v)
