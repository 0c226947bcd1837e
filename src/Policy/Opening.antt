-- ===== src/Policy/Opening.antt =====
-- internal/policy/window.go: when a parsed window is open, by the clock of its zone.
use hostseal.Base.{
  ℕ, ◌+◌, ◌-◌, ◌*◌, ◌/◌, ◌%◌, ◌≤◌, ◌<◌, ◌≡◌, ◌↔◌, inl, inr, refl, subst, Bool-cases, dec_eq, ◌≢◌,
  Bool, true, ◌&&◌, ◌||◌, arith, leb, ltb,
}
use hostseal.Policy.Time.{Time, day, minute}
use hostseal.Policy.Zones.{Steady, at_utc, contains_shift}
use hostseal.Policy.Window.{Window, Days, contains}
use hostseal.Policy.Parse.{IsParsed}

-- The day with this number, counted from the zero time, is a Monday if it is 0.
abbrev pub day_selected : Days → ℕ → Bool
day_selected days n = days ((n + 1) % 7)

-- The instant `t` lies in the opening that begins on day `n`.
pub record OpenSince (w : Window) (t : Time) (n : ℕ) : Type 0 where
  pub chosen : day_selected w.days n ≡ true
  pub begun : n * day + w.start_minutes * minute ≤ t
  pub not_over : t < n * day + w.start_minutes * minute + w.length_minutes * minute

day_test : Window → Time → ℕ → Bool
day_test w t n =
    day_selected w.days n
    && leb (n * day + w.start_minutes * minute) t
    && ltb t (n * day + w.start_minutes * minute + w.length_minutes * minute)

day_test-OpenSince : (w : Window) (t n : ℕ) → day_test w t n ≡ true → OpenSince w t n
unfolding day_test
day_test-OpenSince w t n h = ground arith

OpenSince-day_test : (w : Window) (t n : ℕ) → OpenSince w t n → day_test w t n ≡ true
unfolding day_test
OpenSince-day_test w t n o = ground arith

contains-day_test :
    (w : Window) (t : Time)
    → contains (at_utc w) t ≡ (w.always || day_test w t (t / day) || day_test w t ((t - day) / day))
unfolding contains day_test
contains-day_test w t = refl

begun_lately :
    (w : Window) (t n : ℕ) → IsParsed w → OpenSince w t n → n ≢ t / day → n ≡ (t - day) / day
begun_lately w t n p o ne = omega arith

pub contains-at_utc_iff :
    (w : Window) (t : Time)
    → IsParsed w
    → (contains (at_utc w) t ≡ true) ↔ ((n : ℕ) × OpenSince w t n)
contains-at_utc_iff w t p = rw contains-day_test (to, from)
  where
    to :
        (w.always || day_test w t (t / day) || day_test w t ((t - day) / day)) ≡ true
        → (n : ℕ) × OpenSince w t n
    to h = elim (Bool-cases (day_test w t (t / day))) [
      | inl today ↦ (t / day, day_test-OpenSince w t _ today)
      | inr late ↦
          ((t - day) / day, day_test-OpenSince w t _ (ground (arith, h, late, p.sometimes)))
    ]

    from :
        (n : ℕ) × OpenSince w t n
        → (w.always || day_test w t (t / day) || day_test w t ((t - day) / day)) ≡ true
    from (n, o) = elim (dec_eq n (t / day)) [
      | yes e ↦ ground (arith, subst (λ k. day_test w t k ≡ true) e (OpenSince-day_test w t n o))
      | no ne ↦ ground (
        arith,
        subst (λ k. day_test w t k ≡ true) (begun_lately w t n p o ne) (OpenSince-day_test w t n o),
      )
    ]

-- In a zone at a fixed distance from UTC, and from the fourth day of the calendar on, a parsed window
-- contains an instant exactly if, by the clock of its zone, it opened on some day of the calendar,
-- past or present, and has not closed since.
pub contains_iff :
    (w : Window) (t : Time)
    → IsParsed w
    → Steady w.loc
    → 3 * day ≤ t
    → (contains w t ≡ true) ↔ ((n : ℕ) × OpenSince w (w.loc.wall t) n)
contains_iff w t p z k = rw (contains_shift w z t k) (contains-at_utc_iff w (w.loc.wall t) p)
