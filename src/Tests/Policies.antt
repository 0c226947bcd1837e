-- ===== src/Tests/Policies.antt =====
-- internal/policy at concrete policies and instants.
use hostseal.Base.{
  ◌≤◌, ℕ, ◌+◌, ◌-◌, ◌*◌, ◌<◌, ◌≡◌, ◌↔◌, ◌⊎◌, refl, true, false, some, [], ◌∷◌, ok, codes, equal,
  arith, ◌==◌, ◌||◌, trim_space, fields, cut, split,
}
use hostseal.Base.Int.{pos}
use hostseal.Intent.Names.{host_reboot}
use hostseal.Intent.Params.{reboot_params}
use hostseal.Policy.Rounds.{Loop, ahead, mark_range-Loop}
use hostseal.Policy.Parse.{mark_range}
use hostseal.Policy.Time.{Time, utc, day, minute}
use hostseal.Policy.Clock.{parse_clock, parse_time_range, atoi, bounded}
use hostseal.Policy.Window.{Window, contains, next_open}
use hostseal.Policy.Parse.{parse_days, parse_window, weekday_named, IsParsed, parse_window-IsParsed}
use hostseal.Policy.Opening.{OpenSince, contains_iff}
use hostseal.Policy.Zones.{Steady, at_utc}
use hostseal.Policy.NextUtc.{IsNext}
use hostseal.Policy.Next.{next_open-IsNext}
use hostseal.Policy.Rules.{Policy, Host, allow_all}
use hostseal.Policy.Decide.{Request, Env, decide}
use hostseal.Policy.Sovereignty.{Permitted, decide-Permitted_iff}

abbrev saturdays : Window
saturdays = record {
  always = false;
  days = λ i. i == 6 || false;
  start_minutes = 1320;
  length_minutes = 240;
  loc = utc;
  text = codes "Sat 22:00-02:00";
}

saturdays_parsed : parse_window (codes " Sat 22:00-02:00 ") utc ≡ ok saturdays
unfolding parse_window trim_space fields parse_days cut split weekday_named parse_time_range
    parse_clock atoi bounded equal
saturdays_parsed = refl

parse_window-IsParsed_example : (saturdays.always ≡ true) ⊎ IsParsed saturdays
parse_window-IsParsed_example =
    parse_window-IsParsed (codes " Sat 22:00-02:00 ") utc saturdays_parsed

saturdays-IsParsed : IsParsed saturdays
saturdays-IsParsed = record {
  sometimes = refl;
  starts = omega arith;
  lasts = omega arith;
  in_a_day = omega arith;
  some_day = refl;
}

-- Day 20 is a Sunday: an hour past midnight the window of the day before is still open.
abbrev pub sunday_at_one : Time
sunday_at_one = 20 * day + 60 * minute

-- The same window by a clock that is an hour ahead of UTC.
abbrev saturdays_ahead : Window
saturdays_ahead = record saturdays {
  loc = record { wall = λ t. t + 60 * minute; instant = λ c. c - 60 * minute };
}

saturdays_ahead-IsParsed : IsParsed saturdays_ahead
saturdays_ahead-IsParsed = record {
  sometimes = refl;
  starts = omega arith;
  lasts = omega arith;
  in_a_day = omega arith;
  some_day = refl;
}

saturdays_ahead-Steady : Steady saturdays_ahead.loc
saturdays_ahead-Steady = record {
  east = 60 * minute;
  west = 0;
  near_east = omega arith;
  near_west = omega arith;
  wall_is = λ t. omega arith;
  instant_is = λ c. omega arith;
}

contains_iff_example :
    (contains saturdays_ahead sunday_at_one ≡ true)
    ↔ ((n : ℕ) × OpenSince saturdays_ahead (saturdays_ahead.loc.wall sunday_at_one) n)
contains_iff_example =
    contains_iff saturdays_ahead sunday_at_one saturdays_ahead-IsParsed saturdays_ahead-Steady
      (omega arith)

-- By that clock the window has just closed.
closed_ahead : contains saturdays_ahead sunday_at_one ≡ false
unfolding contains
closed_ahead = refl

open_on_sunday : contains (at_utc saturdays) sunday_at_one ≡ true
unfolding contains
open_on_sunday = refl

abbrev sunday_at_three : Time
sunday_at_three = 20 * day + 180 * minute

next_open-IsNext_example :
    IsNext saturdays_ahead sunday_at_three (next_open saturdays_ahead sunday_at_three)
next_open-IsNext_example =
    next_open-IsNext saturdays_ahead sunday_at_three saturdays_ahead-IsParsed saturdays_ahead-Steady
      (omega arith)

next_saturday : next_open (at_utc saturdays) sunday_at_three ≡ 26 * day + 1320 * minute
unfolding next_open contains
next_saturday = refl

abbrev pub plain_host : Host
plain_host = record { glob = λ p u. some (equal p u); load_location = λ _. some utc }

-- A host that takes every update, and may be rebooted in the night to Sunday.
abbrev pub open_rules : Policy
open_rules = record {
  updates = record {
    allow = allow_all;
    auto_apply = true;
    scan = true;
    window = codes "Sat 22:00-02:00";
    timezone = "UTC";
    reboot = "window";
  };
  restartable = codes "nginx.service" ∷ [];
  watched = [];
  report_containers = false;
  report_network = true;
  report_resources = true;
  max_job_age_seconds = pos 900;
  window = saturdays;
}

abbrev pub reboot_now : Request
reboot_now = record {
  intent = host_reboot;
  params = reboot_params host_reboot (pos 0) [];
  issued_at = sunday_at_one;
}

abbrev pub that_night : Env
that_night = record { now = sunday_at_one; paused = false }

decide-Permitted_iff_example :
    ((decide plain_host open_rules reboot_now that_night).allowed ≡ true)
    ↔ Permitted plain_host open_rules 900 reboot_now that_night
decide-Permitted_iff_example =
    decide-Permitted_iff plain_host open_rules 900 refl (omega arith) reboot_now that_night

-- Friday to Monday.
mark_range-Loop_example :
    Loop 0 4 (λ i. false) (mark_range 7 4 0 (λ i. false))
    × ((i : ℕ)
        → i < 7
        → (mark_range 7 4 0 (λ j. false) i ≡ true) ↔ ((false ≡ true) ⊎ (ahead 4 i ≤ ahead 4 0)))
mark_range-Loop_example = mark_range-Loop 4 0 (λ i. false) (omega arith) (omega arith)
