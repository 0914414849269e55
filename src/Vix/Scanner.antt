-- ===== src/Vix/Scanner.antt =====
-- vix/scanner.py: the hourly scan, and the lookback over one day.
pub mod World
pub mod Deliver
pub mod Close
pub mod Claiming
pub mod Once
pub mod Events
pub mod Opened
use china_a_share.Prelude.{
  ℕ, Bool, true, false, ◌&&◌, not, Option, none, some, Text, text_eq, ◌==◌, if◌then◌else◌, [],
  Result, ok, raised, overflow_error, zero_division_error,
}
use china_a_share.Floats.{Float}
use china_a_share.Vix.Source.{VixQuote, Moment, evaluable, settled, eastern_wall_clock}
use china_a_share.Vix.History.{History, FredFile, load, current, ensure_seeded, record_settlement}
use china_a_share.Vix.Scanner.World.{Outside, Service}
use china_a_share.Vix.Scanner.Deliver.{Alerts, deliver_new_alerts}
use china_a_share.Vix.Scanner.Close.{close_due_positions}
use china_a_share.Vix.History.{lookup_day}
use china_a_share.Dates.{Date}

-- The summary that a scan returns.
pub data Summary (F : Type 0) : Type 0 where
  skipped_no_quote : Summary F
  skipped_stale_quote : Text → Date → Summary F
  completed : VixQuote F → Bool → Alerts → ℕ → Summary F

-- What `lookback` shows of a day.
pub record Lookback (F : Type 0) : Type 0 where
  pub close : F
  pub prev_date : Text
  pub prev_close : F
  pub change : F
  pub from_quote : Bool

module _ {F : Type 0} ⦃f : Float F⦄ where
  -- The two calls on the history for a settled quote.
  unfoldable pub record_quote : Result FredFile → VixQuote F → History F → History F × Result Bool
  record_quote fetched q h =
      let (h', seeded) = ensure_seeded fetched h in
      elim seeded [ raised e ↦ (h', raised e) | ok _ ↦ record_settlement q.date q.close h' ]

  unfoldable pub deliver_and_close :
      Outside F → VixQuote F → Bool → Service F → Service F × Result (Summary F)
  deliver_and_close out q recorded s =
      let (s', closed) = close_due_positions out q s in
      let (s'', alerts) = deliver_new_alerts out q s' in
      (s'', ok (completed q recorded alerts closed))

  -- The rest of a scan after the recording, which may have raised.
  unfoldable pub after_recording :
      Outside F → VixQuote F → Service F → History F × Result Bool → Service F × Result (Summary F)
  after_recording out q s (h, raised e) = (record s { history = h }, raised e)
  after_recording out q s (h, ok recorded) = deliver_and_close out q true (record s { history = h })

  unfoldable pub scan_quote :
      Outside F → Result FredFile → VixQuote F → Moment → Service F → Service F × Result (Summary F)
  scan_quote out fetched q now s =
      if not (evaluable q now)
      then (s, ok (skipped_stale_quote q.date now.date))
      else if settled q now
      then after_recording out q s (record_quote fetched q s.history)
      else deliver_and_close out q false s

  unfoldable pub scan_at :
      Outside F
      → Result FredFile
      → Option (VixQuote F)
      → Option Moment
      → Service F
      → Service F × Result (Summary F)
  scan_at out fetched quote none s = (s, raised overflow_error)
  scan_at out fetched none (some now) s = (s, ok skipped_no_quote)
  scan_at out fetched (some q) (some now) s = scan_quote out fetched q now s

  -- One scan, at a moment in UTC, with what the quote fetcher and the FRED download give.
  unfoldable pub run_hourly_scan :
      Outside F
      → Result FredFile
      → Option (VixQuote F)
      → Moment
      → Service F
      → Service F × Result (Summary F)
  run_hourly_scan out fetched quote utc s = scan_at out fetched quote (eastern_wall_clock utc) s

  abbrev pub stored_lookback : Text × F × F → Result (Option (Lookback F))
  stored_lookback (prev, was, now) =
      if f.eq was (f.cents 0)
      then raised zero_division_error
      else ok (
          some (record {
            close = now;
            prev_date = prev;
            prev_close = was;
            change = f.mul (f.sub (f.div now was) (f.cents 100)) (f.cents 10_000);
            from_quote = false;
          }))

  -- The quote where the series has no such day: only the live one of the day itself.
  abbrev pub quoted_lookback :
      Text → Option (VixQuote F) → Option Moment → Result (Option (Lookback F))
  quoted_lookback day quote none = raised overflow_error
  quoted_lookback day none (some now) = ok none
  quoted_lookback day (some q) (some now) =
      if q.date == day && evaluable q now
      then ok (
          some (record {
            close = q.close;
            prev_date = [];
            prev_close = q.prev_close;
            change = q.change_pct;
            from_quote = true;
          }))
      else ok none

  unfoldable pub lookback :
      Result FredFile
      → Option (VixQuote F)
      → Moment
      → Text
      → Service F
      → Service F × Result (Option (Lookback F))
  lookback fetched quote utc day s =
      let (h, seeded) = ensure_seeded fetched s.history in
      (
        record s { history = h },
        elim seeded [
          | raised e ↦ raised e
          | ok _ ↦ elim (lookup_day day (current (load h))) [
            | some found ↦ stored_lookback found
            | none ↦ quoted_lookback day quote (eastern_wall_clock utc)
          ]
        ],
      )
