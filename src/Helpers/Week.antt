-- ===== src/Helpers/Week.antt =====
-- `adjustDateToWeekday`. A date is its local day, counted from 1 January 1970, and the time of day.
use capstone_home_care_be_mi.Common.{ℕ, ◌+◌, ◌-◌, ◌%◌, ◌≡◌, ◌≤◌, ◌<◌, refl, arith}

pub data WeekDay : Type 0 where
  monday tuesday wednesday thursday friday saturday sunday : WeekDay

pub record Date : Type 0 where
  pub day : ℕ
  pub time : ℕ

-- `getDay`: 0 is Sunday, and day 0 was a Thursday.
abbrev pub get_day : Date → ℕ
get_day d = (d.day + 4) % 7

abbrev pub day_map : WeekDay → ℕ
day_map monday = 1
day_map tuesday = 2
day_map wednesday = 3
day_map thursday = 4
day_map friday = 5
day_map saturday = 6
day_map sunday = 0

unfoldable pub adjust_date_to_weekday : Date → WeekDay → Date
adjust_date_to_weekday start_date day =
    let current = get_day start_date in
    let diff = (day_map day + 7 - current) % 7 in record start_date { day = start_date.day + diff }

day_map-small : (day : WeekDay) → day_map day < 7
day_map-small monday = omega arith
day_map-small tuesday = omega arith
day_map-small wednesday = omega arith
day_map-small thursday = omega arith
day_map-small friday = omega arith
day_map-small saturday = omega arith
day_map-small sunday = omega arith

pub record IsFirst (start : Date) (day : WeekDay) (found : Date) : Type 0 where
  pub on_day : get_day found ≡ day_map day
  pub from_start : start.day ≤ found.day
  pub first :
      (other : Date) → start.day ≤ other.day → get_day other ≡ day_map day → found.day ≤ other.day
  pub time : found.time ≡ start.time

-- The date that adjustDateToWeekday finds is the first from the start on that falls on the
-- weekday, at the same time of day.
pub adjust_date_to_weekday-IsFirst :
    (start : Date) (day : WeekDay) → IsFirst start day (adjust_date_to_weekday start day)
unfolding adjust_date_to_weekday
adjust_date_to_weekday-IsFirst start day =
    let small = day_map-small day in
    record {
      on_day = omega arith;
      from_start = omega arith;
      first = λ other later same. omega arith;
      time = refl;
    }
