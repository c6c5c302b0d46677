-- ===== src/Clock.antt =====
-- internal/tool/time.go: the tool that tells the time in Beijing, and the layouts of its texts.
pub mod Reading
use miss_raspberry_agent.Prelude.{
  ◌==◌, if◌then◌else◌, ℤ, pos_part, ℕ, ◌+◌, ◌*◌, ◌/◌, ◌%◌, ◌∷◌, ◌++◌, format_nat, Text, codes,
}
use miss_raspberry_agent.Scheduler.Calendar.{Time, Date, date, weekday, unix, day_ns, second_ns}
use miss_raspberry_agent.Scheduler.Builder.Describe.{pad, two_digits}

-- Format("2006-01-02")
unfoldable pub format_date : Time → Text
unfolding pad
format_date t =
    let d = date t in
    pad 4 (format_nat d.year) ++ b'-' ∷ two_digits d.month ++ b'-' ∷ two_digits d.day

-- The seconds since midnight
abbrev pub second_of_day : Time → ℕ
second_of_day t = t.wall % day_ns / second_ns

-- Format("15:04:05")
unfoldable pub format_clock : Time → Text
format_clock t =
    let s = second_of_day t in
    two_digits (s / 3600) ++ b':' ∷ two_digits (s / 60 % 60) ++ b':' ∷ two_digits (s % 60)

-- Format("2006-01-02 15:04:05")
unfoldable pub format_date_time : Time → Text
format_date_time t = format_date t ++ b' ' ∷ format_clock t

-- weekdayCN, with Sunday as 0
unfoldable pub weekday_cn : ℕ → Text
weekday_cn d =
    if d == 1
    then codes "星期一"
    else if d == 2
    then codes "星期二"
    else if d == 3
    then codes "星期三"
    else if d == 4
    then codes "星期四"
    else if d == 5
    then codes "星期五"
    else if d == 6
    then codes "星期六"
    else codes "星期日"

pub record CurrentTimeOutput : Type 0 where
  pub time : Text
  pub date_text : Text
  pub weekday_text : Text
  pub unix_time : ℤ
  pub timezone : Text

-- CurrentTime, for the clock's answer
unfoldable pub current_time : Time → CurrentTimeOutput
current_time now = record {
  time = format_date_time now;
  date_text = format_date now;
  weekday_text = weekday_cn (weekday now);
  unix_time = unix now;
  timezone = codes "Asia/Shanghai (UTC+8)";
}

-- time.Unix(n, 0) in Beijing, for a time after 1970
unfoldable pub from_unix : ℤ → Time
from_unix n = record { wall = (pos_part n + 62_135_625_600) * second_ns }
