-- ===== src/Controller/Schedule.antt =====
-- Schedules that are written in full.
use kubernetes_programming.Prelude.{◌≡◌}
use kubernetes_programming.Clock.{Instant, DateTime, parsed, date, sub}
use kubernetes_programming.Clock.Format.{format, IsDate, parse-format}
use kubernetes_programming.Controller.{time_until_schedule}

-- For a schedule that is written as a four-digit year, two-digit month, day, hour, minute and second
-- of a real date, in UTC and without a fraction, the time until the schedule is the difference between
-- that date and the present, and no error.
pub until_date :
    (now : Instant) (t : DateTime)
    → IsDate t
    → time_until_schedule now (format t) ≡ parsed (sub (date t) now)
unfolding time_until_schedule
until_date now t v = rw (time_until_schedule, parse-format t v)
