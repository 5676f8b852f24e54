-- ===== src/Scheduler/Triggers.antt =====
-- app/scheduler/triggers.py: the trigger of a source's job, from its configuration.
use recru_flow.Base.{
  String, Bool, false, not, ◌&&◌, Option, none, some, str_eq, if◌then◌else◌, get_or,
}
use recru_flow.Base.Int.{pos, is_pos}
use recru_flow.Data.Text.{strip, is_empty}
use recru_flow.Data.Json.{Value, int, float, obj, Fields, get, as_str}

-- The two triggers of APScheduler; the seconds of an interval are a number.
pub data Trigger : Type 0 where
  interval : Value → Trigger
  cron : String → Trigger

abbrev pub default_trigger : Trigger
default_trigger = interval (int (pos 3600))

-- An `int` or a `float` that is no `bool`, above zero.
unfoldable pub is_positive : Value → Bool
is_positive (int n) = is_pos n
is_positive (float m k) = is_pos m
is_positive _ = false

-- APScheduler's part: `accepts` says whether `IntervalTrigger` takes the seconds, which overflow where
-- they are too many, and `from_crontab` whether it reads the expression.
module _ (accepts : Value → Bool) (from_crontab : String → Bool) where
  -- A trigger, or none for a schedule that is not usable; none around it is an `OverflowError`, which
  -- nothing catches.
  unfoldable pub parse_interval : Fields → Option (Option Trigger)
  unfolding get is_positive
  parse_interval schedule =
      if not (is_positive (get "seconds" schedule))
      then some none
      else if accepts (get "seconds" schedule)
      then some (some (interval (get "seconds" schedule)))
      else none

  unfoldable pub read_cron : Option String → Option Trigger
  unfolding strip is_empty
  read_cron none = none
  read_cron (some expression) =
      if not (is_empty (strip expression)) && from_crontab expression
      then some (cron expression)
      else none

  unfoldable pub parse_cron : Fields → Option Trigger
  unfolding get read_cron
  parse_cron schedule = read_cron (as_str (get "expression" schedule))

  -- The trigger of a schedule, by its type.
  unfoldable pub parse_typed : Option String → Fields → Option (Option Trigger)
  unfolding parse_interval parse_cron
  parse_typed none schedule = some none
  parse_typed (some schedule_type) schedule =
      if str_eq schedule_type "interval"
      then parse_interval schedule
      else if str_eq schedule_type "cron"
      then some (parse_cron schedule)
      else some none

  unfoldable pub parse_value : Value → Option (Option Trigger)
  unfolding parse_typed get
  parse_value (obj schedule) = parse_typed (as_str (get "type" schedule)) schedule
  parse_value _ = some none

  -- The trigger of a configuration; none is the `OverflowError`.
  unfoldable pub parse_schedule : Value → Option Trigger
  unfolding parse_value get
  parse_schedule (obj config) = elim (parse_value (get "schedule" config)) [
    | none ↦ none
    | some parsed ↦ some (get_or parsed default_trigger)
  ]
  parse_schedule _ = some default_trigger
