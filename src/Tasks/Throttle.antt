-- ===== src/Tasks/Throttle.antt =====
-- tasks.py: the write slots of an object and the throttled writes of a run's progress, in microseconds
-- of the monotonic clock.
pub mod Laws
use china_a_share.Prelude.{
  ℕ, ◌+◌, ◌-◌, ◌*◌, max, Bool, true, false, Option, none, some, Text, text_eq, ltb, List, [], ◌∷◌,
  if◌then◌else◌,
}
use china_a_share.Prelude.Maps.{Dict, lookup, insert}

abbrev pub min_object_write_interval : ℕ
min_object_write_interval = 1000000

abbrev pub scheduled : ℕ → Option ℕ → ℕ
scheduled now none = now
scheduled now (some t) = max now t

-- `_wait_for_write_slot`: the schedule after it and the time of the write, which it sleeps until.
unfoldable pub wait_for_write_slot : Text → ℕ → Dict Text ℕ → Dict Text ℕ × ℕ
wait_for_write_slot object_name now schedule =
    let write_at = scheduled now (lookup object_name schedule) in
    (insert object_name (write_at + min_object_write_interval) schedule, write_at)

-- The writes of the requests of slots in their order: the objects with their times.
unfoldable pub write_times : List (Text × ℕ) → Dict Text ℕ → List (Text × ℕ)
write_times [] schedule = []
write_times ((object_name, now) ∷ requests) schedule =
    let (schedule', write_at) = wait_for_write_slot object_name now schedule in
    (object_name, write_at) ∷ write_times requests schedule'
