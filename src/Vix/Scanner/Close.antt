-- ===== src/Vix/Scanner/Close.antt =====
-- vix/scanner.py: the closing of the positions that are due.
use china_a_share.Prelude.{
  ℕ, ◌+◌, Bool, ◌&&◌, not, Option, none, some, Text, text_lt, text_eq, if◌then◌else◌, List, [], ◌∷◌,
  Result, ok, raised, zero_division_error, filter, length, ◌>>=◌,
}
use china_a_share.Floats.{Float}
use china_a_share.Vix.Source.{VixQuote}
use china_a_share.Vix.Positions.{VixPosition, CloseReason, PositionStore, close_reason, from_rule}
use china_a_share.Vix.Positions as Positions
use china_a_share.Vix.History.{History, keys, load, current}
use china_a_share.Vix.Scanner.World.{
  Message, closing, Outside, Service, send, best_effort_index_level,
}

module _ {F : Type 0} where
  unfoldable pub trading_days_since : Text → VixQuote F → History F → ℕ
  unfolding load keys
  trading_days_since entry q h =
      length
        (filter (λ day. text_lt entry day && not (text_lt q.date day)) (keys (current (load h))))

module _ {F : Type 0} where
  unfoldable pub values : PositionStore F → List (VixPosition F)
  values [] = []
  values ((k, p) ∷ s) = p ∷ values s

  abbrev pub opt_positions : Option (PositionStore F) → List (VixPosition F)
  opt_positions none = []
  opt_positions (some s) = values s

  abbrev pub drop_position : VixPosition F → Option (PositionStore F) → Option (PositionStore F)
  drop_position p none = none
  drop_position p (some store) = some (Positions.delete p.chat_id p.rule_id store)

module _ {F : Type 0} ⦃f : Float F⦄ where
  open f use {le, eq, sub, mul, div, cents}

  -- The actual return, where both levels are known, and whether it reaches the expected one.
  unfoldable pub actual_return : F → Option F → Option F → Result (Option (F × Bool))
  actual_return expected (some entry) (some exit) =
      if eq entry (cents 0)
      then raised zero_division_error
      else let actual = mul (sub (div exit entry) (cents 100)) (cents 10_000) in
        ok (some (actual, le expected actual))
  actual_return expected _ _ = ok none

  unfoldable pub compose_closing_message :
      VixPosition F → VixQuote F → Option F → CloseReason F → Result (Message F)
  unfolding actual_return
  compose_closing_message p q exit_index reason =
      actual_return p.expected_return_pct p.entry_index exit_index >>= λ result.
      ok (closing p q exit_index reason result)

  -- A report that cannot be made or sent leaves the position for the next scan.
  unfoldable pub send_report :
      Outside F → VixPosition F → Result (Message F) → Service F × ℕ → Service F × ℕ
  send_report out p (raised e) sn = sn
  send_report out p (ok m) (s, n) =
      let (log, done) = send out p.chat_id m s.log in
      if done
      then (record s { log = log; positions = drop_position p s.positions }, n + 1)
      else (record s { log = log }, n)

  unfoldable pub close_if_due :
      Outside F
      → VixQuote F
      → VixPosition F
      → Option (CloseReason F)
      → Service F × ℕ
      → Service F × ℕ
  close_if_due out q p none sn = sn
  close_if_due out q p (some reason) (s, n) =
      send_report out p (compose_closing_message p q (best_effort_index_level out s.log) reason)
        (s, n)

  -- One position of the closing loop; `n` counts the closed ones. Counting days loads the history.
  unfoldable pub close_position :
      Outside F → VixQuote F → VixPosition F → Service F × ℕ → Service F × ℕ
  close_position out q p (s, n) =
      close_if_due out q p (close_reason p q (trading_days_since p.entry_date q s.history))
        (record s { history = load s.history }, n)

  unfoldable pub close_positions :
      Outside F → VixQuote F → List (VixPosition F) → Service F × ℕ → Service F × ℕ
  close_positions out q [] sn = sn
  close_positions out q (p ∷ ps) sn = close_positions out q ps (close_position out q p sn)

  -- `_close_due_positions`: over the positions as they are when it begins.
  unfoldable pub close_due_positions : Outside F → VixQuote F → Service F → Service F × ℕ
  close_due_positions out q s = close_positions out q (opt_positions s.positions) (s, 0)
