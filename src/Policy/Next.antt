-- ===== src/Policy/Next.antt =====
-- internal/policy/window.go: `NextOpen` finds the earliest opening, by the clock of the zone.
use hostseal.Base.{
  ℕ, zero, suc, ◌+◌, ◌*◌, ◌/◌, ◌≤◌, ◌<◌, ◌≡◌, inl, inr, refl, subst, sym, ap, ◌∙◌, Bool-cases, true,
  false, arith, leb, if◌then◌else◌,
}
use hostseal.Policy.Time.{Time, day, minute}
use hostseal.Policy.Window.{Window, opening, selected, contains, next_open, next_from}
use hostseal.Policy.Parse.{IsParsed}
use hostseal.Policy.Opening.{day_selected}
use hostseal.Policy.Zones.{
  Steady, at_utc, contains_shift, wall-instant, wall-late, opening_shift, selected_shift, leb_back,
}
use hostseal.Policy.NextUtc.{
  begin, fits, past_miss, day_of_offset, next_from-suc, next_from-fits, IsNext, next_open-at_utc,
  next_open_closed, next_open_opened,
}

module _ (w : Window) (z : Steady w.loc) (t : Time) (late : 3 * day ≤ t) where
  days_on : (k : ℕ) → day ≤ w.loc.wall t + k * day
  days_on k = let h = wall-late w z t (omega (arith, late)) in omega (arith, h)

  same_opening :
      (k : ℕ)
      → opening w (w.loc.instant (w.loc.wall t + k * day))
        ≡ w.loc.instant (begin w (w.loc.wall t / day + k))
  same_opening k =
      opening_shift w z (w.loc.wall t + k * day) (days_on k)
      ∙ ap (λ n. w.loc.instant (n * day + w.start_minutes * minute))
          (day_of_offset (w.loc.wall t) k)

  same_days :
      (k : ℕ)
      → selected w (w.loc.instant (w.loc.wall t + k * day))
        ≡ day_selected w.days (w.loc.wall t / day + k)
  same_days k =
      selected_shift w z (w.loc.wall t + k * day) (days_on k)
      ∙ ap (λ n. day_selected w.days n) (day_of_offset (w.loc.wall t) k)

  same_test :
      (k : ℕ)
      → leb t (w.loc.instant (begin w (w.loc.wall t / day + k)))
        ≡ leb (w.loc.wall t) (begin w (w.loc.wall t / day + k))
  same_test k =
      let c = w.loc.wall t in
      let h : day ≤ begin w (c / day + k) =
        let g = wall-late w z t (omega (arith, late)) in omega (arith, g) in
      ap (leb t) (z.instant_is (begin w (c / day + k)))
      ∙ leb_back (begin w (c / day + k)) t z.east z.west h z.near_east z.near_west
          (omega (arith, late))
      ∙ ap (λ x. leb x (begin w (c / day + k))) (sym (z.wall_is t))

  round :
      (k n : ℕ)
      → next_from w t k (suc n) ≡ (
          if fits w (w.loc.wall t) k
          then w.loc.instant (begin w (w.loc.wall t / day + k))
          else next_from w t (k + 1) n)
  unfolding next_from fits
  round k n = rw (same_days k, same_opening k, same_test k) refl

  moved :
      (n k j : ℕ)
      → k ≤ j
      → j < k + n
      → fits w (w.loc.wall t) j ≡ true
      → next_from w t k n ≡ w.loc.instant (next_from (at_utc w) (w.loc.wall t) k n)
  moved zero k j lo hi f = absurd (omega (arith, lo, hi))
  moved (suc n) k j lo hi f =
      round k n
      ∙ rw (next_from-suc w (w.loc.wall t) k n) (elim (Bool-cases (fits w (w.loc.wall t) k)) [
        | inl e ↦ rw e refl
        | inr e ↦
            let next : k + 1 ≤ j = past_miss w (w.loc.wall t) k e j lo f in
            rw e (moved n (k + 1) j next (omega (arith, hi)) f)
      ])

  module _ (u : Time) (i : IsNext (at_utc w) (w.loc.wall t) u) where
    is_later : day ≤ u
    is_later = let h = wall-late w z t (omega (arith, late)) in omega (arith, h, i.not_past)

    moved-IsNext : IsNext w t (w.loc.instant u)
    moved-IsNext =
        let e = z.wall_is t in
        let f = z.instant_is u in
        let after : t ≤ w.loc.instant u = omega (arith, e, f, i.not_past, late, z.near_west) in
        record {
          not_past = after;
          is_open =
              rw
                (
                  contains_shift w z (w.loc.instant u) (omega (arith, late, after)),
                  wall-instant w z u is_later,
                )
                i.is_open;
          shut_before = λ v from until.
              let g = z.wall_is v in
              rw (contains_shift w z v (omega (arith, late, from))) (
                i.shut_before (w.loc.wall v) (omega (arith, e, g, from))
                  (omega (arith, g, f, until, late, from, z.near_west)));
          soon = omega (arith, e, f, i.soon, late, z.near_west);
        }

-- In a zone at a fixed distance from UTC, and from the fourth day of the calendar on, `NextOpen` of a
-- parsed window never fails: it returns the first instant, from the one given on, at which `Contains`
-- holds, and that instant is less than eight days away.
pub next_open-IsNext :
    (w : Window) (t : Time) → IsParsed w → Steady w.loc → 3 * day ≤ t → IsNext w t (next_open w t)
next_open-IsNext w t p z late = elim (Bool-cases (contains w t)) [
  | inl opened ↦ subst (IsNext w t) (next_open_opened w t opened) (record {
    not_past = omega arith;
    is_open = opened;
    shut_before = λ v from until. absurd (omega (arith, from, until));
    soon = omega arith;
  })
  | inr closed ↦
      let c = w.loc.wall t in
      let shut : contains (at_utc w) c ≡ false = sym (contains_shift w z t late) ∙ closed in
      let fit = next_from-fits w c p in
      let same : w.loc.instant (next_open (at_utc w) c) ≡ next_open w t =
        ap w.loc.instant (sym (next_open_closed (at_utc w) c p.sometimes shut))
        ∙ sym (moved w z t late 8 0 fit.offset (omega arith) fit.in_range fit.is_fit)
        ∙ next_open_closed w t p.sometimes closed in
      subst (IsNext w t) same
        (moved-IsNext w z t late (next_open (at_utc w) c) (next_open-at_utc w c p))
]
