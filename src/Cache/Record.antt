-- ===== src/Cache/Record.antt =====
-- cache.py: a cached response, the instants that it is compared with, and the key that it is stored under.
use china_a_share.Prelude.{
  ℕ, Bool, true, false, ◌&&◌, ◌||◌, Option, none, some, Text, text, leb, ltb, nat_beq, List, [],
  ◌∷◌, ◌++◌, Result, ok, value_error, require, ◌>>◌, ◌>>=◌, map,
}

-- A `datetime` with its instant, and whether it has a time zone.
pub record Instant : Type 0 where
  pub aware : Bool
  pub time : ℕ

-- A table of cells of some type.
pub record Frame (C : Type 0) : Type 0 where
  pub columns : List Text
  pub rows : List (List C)

-- What the cache calls of pandas: the cell that `frame.astype(object).where(pd.notnull(frame), None)`
-- has in the place of one, and the table that `pd.DataFrame` builds of rows under columns, which may
-- give the cells other types, or raise.
pub record Pandas (C : Type 0) : Type 0 where
  pub null_safe : C → C
  pub data_frame : List Text → List (List C) → Result (Frame C)

pub record DataCacheRecord (C : Type 0) : Type 0 where
  pub provider : Text
  pub operation : Text
  pub params : Text
  pub fields : List Text
  pub fetched_at : ℕ
  pub expires_at : ℕ
  pub columns : List Text
  pub rows : List (List C)

abbrev is_lower : ℕ → Bool
is_lower c = leb b'a' c && leb c b'z'

abbrev is_name_char : ℕ → Bool
is_name_char c = is_lower c || (leb b'0' c && leb c b'9') || nat_beq c b'_'

abbrev all_chars : (ℕ → Bool) → Text → Bool
all_chars p [] = true
all_chars p (c ∷ s) = p c && all_chars p s

-- `NAME_PATTERN` and `OPERATION_PATTERN`, matched in full.
unfoldable pub is_provider_name : Text → Bool
is_provider_name [] = false
is_provider_name (c ∷ s) = is_lower c && all_chars (λ x. is_name_char x || nat_beq x b'-') s

unfoldable pub is_operation_name : Text → Bool
is_operation_name [] = false
is_operation_name (c ∷ s) = is_lower c && all_chars is_name_char s

module _ {C : Type 0} where
  abbrev pub alive : ℕ → DataCacheRecord C → Bool
  alive now r = ltb now r.expires_at

  -- `_is_valid`
  unfoldable pub is_valid : Option (DataCacheRecord C) → ℕ → Bool
  is_valid none now = false
  is_valid (some r) now = ltb now r.expires_at

  unfoldable pub record_to_frame : Pandas C → DataCacheRecord C → Result (Frame C)
  record_to_frame pandas r = pandas.data_frame r.columns r.rows

  -- What the model of a record requires of it when it is built.
  unfoldable pub validate_record : DataCacheRecord C → Result (Unit {0})
  unfolding is_provider_name is_operation_name
  validate_record r = do
    require (is_provider_name r.provider) value_error
    require (is_operation_name r.operation) value_error
    require (ltb r.fetched_at r.expires_at) value_error
    ok tt

  unfoldable pub safe_rows : (C → C) → List (List C) → List (List C)
  safe_rows safe [] = []
  safe_rows safe (row ∷ rows) = map safe row ∷ safe_rows safe rows

unfoldable pub require_aware : Instant → Result ℕ
require_aware i = do require i.aware value_error; ok i.time

-- The digest of the canonical request is an argument: the SHA-256 of its serialization, which raises
-- where the parameters cannot be serialized.
unfoldable pub build_data_cache_key :
    (Text → Text → Text → List Text → Result Text)
    → Text
    → Text
    → Text
    → Text
    → List Text
    → Result Text
unfolding is_provider_name is_operation_name
build_data_cache_key digest version provider operation params fields = do
  require (is_provider_name provider) value_error
  require (is_operation_name operation) value_error
  d ← digest provider operation params fields
  ok (
      text "v"
      ++ (version ++ (text "/" ++ (provider ++ (text "/" ++ (operation ++ (text "/" ++ d)))))))
