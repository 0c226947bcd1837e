-- ===== src/Policy/Zones.antt =====
-- internal/policy/window.go: a window in a zone at a fixed distance from UTC is one in UTC, moved.
use hostseal.Base.{ℕ, ◌+◌, ◌-◌, ◌*◌, ◌≤◌, ◌<◌, ◌≡◌, refl, sym, ◌∙◌, ap, subst, arith, leb, ltb}
use hostseal.Policy.Time.{Time, day, minute, Location, utc, midnight, weekday}
use hostseal.Policy.Window.{Window, contains, opening, selected, open_on}

-- The window with its location set to UTC.
abbrev pub at_utc : Window → Window
at_utc w = record w { loc = utc }

-- A zone whose clock stands less than a day ahead of UTC, or behind it, by one distance at all times.
pub record Steady (loc : Location) : Type 0 where
  pub east : ℕ
  pub west : ℕ
  pub near_east : east < day
  pub near_west : west < day
  pub wall_is : (t : Time) → loc.wall t ≡ t + east - west
  pub instant_is : (c : ℕ) → loc.instant c ≡ c + west - east

leb_shift :
    (a t e v : ℕ)
    → day ≤ a
    → e < day
    → v < day
    → 2 * day ≤ t
    → leb (a + v - e) t ≡ leb a (t + e - v)
leb_shift a t e v h i j k = ground (arith, h, i, j, k)

ltb_shift :
    (a t e v l : ℕ)
    → day ≤ a
    → e < day
    → v < day
    → 2 * day ≤ t
    → ltb t (a + v - e + l) ≡ ltb (t + e - v) (a + l)
ltb_shift a t e v l h i j k = ground (arith, h, i, j, k)

pub leb_back :
    (a t e v : ℕ)
    → day ≤ a
    → e < day
    → v < day
    → 2 * day ≤ t
    → leb t (a + v - e) ≡ leb (t + e - v) a
leb_back a t e v h i j k = ground (arith, h, i, j, k)

midnight-day : (c : ℕ) → day ≤ c → day ≤ midnight c
midnight-day c h = omega (arith, h)

module _ (w : Window) (z : Steady w.loc) where
  pub wall-instant : (c : ℕ) → day ≤ c → w.loc.wall (w.loc.instant c) ≡ c
  wall-instant c h =
      z.wall_is (w.loc.instant c) ∙ ap (λ x. x + z.east - z.west) (z.instant_is c) ∙ back
    where
      back : c + z.west - z.east + z.east - z.west ≡ c
      back = omega (arith, h, z.near_east, z.near_west)

  pub opening_shift :
      (c : ℕ) → day ≤ c → opening w (w.loc.instant c) ≡ w.loc.instant (opening (at_utc w) c)
  opening_shift c h =
      ap (λ x. w.loc.instant (midnight x + w.start_minutes * minute)) (wall-instant c h)

  pub selected_shift : (c : ℕ) → day ≤ c → selected w (w.loc.instant c) ≡ selected (at_utc w) c
  selected_shift c h = ap (λ x. w.days (weekday x)) (wall-instant c h)

  late : (c : ℕ) → day ≤ c → day ≤ opening (at_utc w) c
  late c h = let m = midnight-day c h in omega (arith, m)

  open_on_shift :
      (t c : ℕ)
      → 2 * day ≤ t
      → day ≤ c
      → open_on w t (w.loc.instant c) ≡ open_on (at_utc w) (w.loc.wall t) c
  open_on_shift t c k h =
      let a = opening (at_utc w) c in
      rw
        (
          selected_shift c h,
          opening_shift c h,
          z.instant_is a,
          z.wall_is t,
          leb_shift a t z.east z.west (late c h) z.near_east z.near_west k,
          ltb_shift a t z.east z.west (w.length_minutes * minute) (late c h) z.near_east z.near_west
              k,
        )
        refl

  pub wall-late : (t : Time) → 2 * day ≤ t → day ≤ w.loc.wall t
  wall-late t k = subst (λ x. day ≤ x) (sym (z.wall_is t)) (omega (arith, z.near_west))

  pub contains_shift : (t : Time) → 3 * day ≤ t → contains w t ≡ contains (at_utc w) (w.loc.wall t)
  unfolding contains
  contains_shift t k =
      let c = w.loc.wall t in
      let e = z.wall_is t in
      let now : day ≤ c = wall-late t (omega (arith, k)) in
      let before : day ≤ c - day = omega (arith, e, k, z.near_west) in
      rw
        (
          open_on_shift t c (omega (arith, k)) now,
          open_on_shift t (c - day) (omega (arith, k)) before,
        )
        refl
