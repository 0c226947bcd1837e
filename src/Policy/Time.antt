-- ===== src/Policy/Time.antt =====
-- Instants and civil days, for what internal/policy/window.go uses of Go's `time`.
use hostseal.Base.{ℕ, ◌+◌, ◌*◌, ◌/◌, ◌%◌, Bool, ◌==◌}

-- Nanoseconds since the zero `time.Time`, which is 0: 1 January of the year 1, UTC, a Monday.
abbrev pub Time : Type 0
Time = ℕ

abbrev pub is_zero : Time → Bool
is_zero t = t == 0

abbrev pub second : ℕ
second = 1_000_000_000

abbrev pub minute : ℕ
minute = 60_000_000_000

abbrev pub day : ℕ
day = 86_400_000_000_000

-- A `*time.Location`: the wall clock at an instant, and the instant that `time.Date` picks for a
-- wall clock. Both come from the time zone database.
pub record Location : Type 0 where
  pub wall : Time → ℕ
  pub instant : ℕ → Time

abbrev pub utc : Location
utc = record { wall = λ t. t; instant = λ w. w }

-- `Weekday()` at a wall clock, Sunday being 0.
abbrev pub weekday : ℕ → ℕ
weekday w = (w / day + 1) % 7

-- The wall clock at the start of the same civil day.
abbrev pub midnight : ℕ → ℕ
midnight w = w / day * day
