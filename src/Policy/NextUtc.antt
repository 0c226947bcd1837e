-- ===== src/Policy/NextUtc.antt =====
-- internal/policy/window.go: `NextOpen` finds the earliest opening, in UTC.
use hostseal.Base.{
  ℕ, zero, suc, ◌+◌, ◌-◌, ◌*◌, ◌/◌, ◌%◌, ◌≤◌, ◌<◌, ◌≡◌, inl, inr, refl, subst, sym, ◌∙◌, Bool-cases,
  Bool, true, false, ◌&&◌, arith, leb, dec_eq, dec_lt, le→leb, if◌then◌else◌,
}
use hostseal.Policy.Time.{Time, day, minute}
use hostseal.Policy.Window.{Window, Days, contains, next_open, next_from}
use hostseal.Policy.Parse.{IsParsed, any_day}
use hostseal.Policy.Opening.{day_selected, OpenSince, contains-at_utc_iff}
use hostseal.Policy.Zones.{at_utc}

abbrev pub begin : Window → ℕ → Time
begin w n = n * day + w.start_minutes * minute

-- The day at this offset is selected, and its opening is not past.
unfoldable pub fits : Window → Time → ℕ → Bool
fits w t k = day_selected w.days (t / day + k) && leb t (begin w (t / day + k))

pub day_of_offset : (t k : ℕ) → (t + k * day) / day ≡ t / day + k
day_of_offset t k = omega arith

pub next_from-suc :
    (w : Window) (t : Time) (k n : ℕ)
    → next_from (at_utc w) t k (suc n)
      ≡ (if fits w t k then begin w (t / day + k) else next_from (at_utc w) t (k + 1) n)
unfolding next_from fits
next_from-suc w t k n = rw (day_of_offset t k) refl

-- The loop stops at the first offset that fits, if there is one among those left.
pub record FirstFit (w : Window) (t : Time) (k n : ℕ) (u : Time) : Type 0 where
  pub offset : ℕ
  pub from_k : k ≤ offset
  pub in_range : offset < k + n
  pub is_fit : fits w t offset ≡ true
  pub none_before : (j : ℕ) → k ≤ j → j < offset → fits w t j ≡ false
  pub found : u ≡ begin w (t / day + offset)

module _ (w : Window) (t : Time) (k : ℕ) (miss : fits w t k ≡ false) where
  pub past_miss : (j : ℕ) → k ≤ j → fits w t j ≡ true → k + 1 ≤ j
  past_miss j lo fit = elim (dec_eq k j) [
    | yes e ↦ absurd (cc (subst (λ i. fits w t i ≡ false) e miss))
    | no ne ↦ omega arith
  ]

  none_from :
      (o : ℕ)
      → ((j : ℕ) → k + 1 ≤ j → j < o → fits w t j ≡ false)
      → (j : ℕ) → k ≤ j
      → j < o
      → fits w t j ≡ false
  none_from o rest j lo hi = elim (dec_eq k j) [
    | yes e ↦ subst (λ i. fits w t i ≡ false) e miss
    | no ne ↦ rest j (omega arith) hi
  ]

next_from-FirstFit :
    (w : Window) (t : Time) (n k j : ℕ)
    → k ≤ j
    → j < k + n
    → fits w t j ≡ true
    → FirstFit w t k n (next_from (at_utc w) t k n)
next_from-FirstFit w t zero k j lo hi f = absurd (omega arith)
next_from-FirstFit w t (suc n) k j lo hi f = elim (Bool-cases (fits w t k)) [
  | inl here ↦ record {
    offset = k;
    from_k = omega arith;
    in_range = omega arith;
    is_fit = here;
    none_before = λ i a b. absurd (omega arith);
    found = next_from-suc w t k n ∙ rw here;
  }
  | inr later ↦
      let next : k + 1 ≤ j = past_miss w t k later j lo f in
      let r = next_from-FirstFit w t n (k + 1) j next (omega arith) f in
      record {
        offset = r.offset;
        from_k = omega (arith, r.from_k);
        in_range = omega (arith, r.in_range);
        is_fit = r.is_fit;
        none_before = none_from w t k later r.offset r.none_before;
        found = next_from-suc w t k n ∙ rw later r.found;
      }
]

-- Some offset from 1 to 7 leads to a day of the week that is selected.
offset_of : ℕ → ℕ → ℕ
offset_of n r = elim ((r + 13 - n % 7) % 7) [ zero ↦ 7 | suc k ↦ suc k ]

offset_of_weekday :
    (n r : ℕ)
    → r < 7
    → (0 < offset_of n r) × (offset_of n r < 8) × ((n + offset_of n r + 1) % 7 ≡ r)
unfolding offset_of
offset_of_weekday n r h = go ((r + 13 - n % 7) % 7) refl
  where
    go :
        (m : ℕ)
        → (r + 13 - n % 7) % 7 ≡ m
        → let o : ℕ = elim m [ zero ↦ 7 | suc k ↦ suc k ] in
          (0 < o) × (o < 8) × ((n + o + 1) % 7 ≡ r)
    go zero e = (omega arith, omega arith, omega arith)
    go (suc k) e = (omega arith, omega arith, omega arith)

some_weekday : (d : Days) → any_day d ≡ true → (r : ℕ) × (r < 7) × (d r ≡ true)
some_weekday d h = elim (Bool-cases (d 0)) [
  | inl e ↦ (0, omega arith, e)
  | inr n0 ↦ elim (Bool-cases (d 1)) [
    | inl e ↦ (1, omega arith, e)
    | inr n1 ↦ elim (Bool-cases (d 2)) [
      | inl e ↦ (2, omega arith, e)
      | inr n2 ↦ elim (Bool-cases (d 3)) [
        | inl e ↦ (3, omega arith, e)
        | inr n3 ↦ elim (Bool-cases (d 4)) [
          | inl e ↦ (4, omega arith, e)
          | inr n4 ↦ elim (Bool-cases (d 5)) [
            | inl e ↦ (5, omega arith, e)
            | inr n5 ↦ (6, omega arith, ground arith)
          ]
        ]
      ]
    ]
  ]
]

fits_later :
    (w : Window) (t : Time) (k : ℕ)
    → 0 < k
    → day_selected w.days (t / day + k) ≡ true
    → fits w t k ≡ true
unfolding fits
fits_later w t k pos sel = rw (sel, le→leb t (begin w (t / day + k)) (omega arith))

pub next_from-fits :
    (w : Window) (t : Time) → IsParsed w → FirstFit w t 0 8 (next_from (at_utc w) t 0 8)
next_from-fits w t p =
    let (r, small, chosen) = some_weekday w.days p.some_day in
    let (pos, near, same) = offset_of_weekday (t / day) r small in
    next_from-FirstFit w t 8 0 (offset_of (t / day) r) (omega arith) (omega (arith, near))
      (fits_later w t _ pos (subst (λ i. w.days i ≡ true) (sym same) chosen))

-- `u` is the first instant from `t` on at which the window is open.
pub record IsNext (w : Window) (t u : Time) : Type 0 where
  pub not_past : t ≤ u
  pub is_open : contains w u ≡ true
  pub shut_before : (v : Time) → t ≤ v → v < u → contains w v ≡ false
  pub soon : u < t + 8 * day

opening_is_fit :
    (w : Window) (t v n : ℕ)
    → OpenSince w v n
    → t < begin w n
    → t / day ≤ n
    → fits w t (n - t / day) ≡ true
unfolding fits
opening_is_fit w t v n o later le =
    let e : t / day + (n - t / day) ≡ n = omega arith in
    rw (e, o.chosen, le→leb t (begin w n) (omega arith))

module _ (w : Window) (t u : Time) (p : IsParsed w) (shut : contains (at_utc w) t ≡ false)
    (f : FirstFit w t 0 8 u) where
  fit_facts : (day_selected w.days (t / day + f.offset) ≡ true) × (t ≤ begin w (t / day + f.offset))
  fit_facts = let h = f.is_fit in unfold fits in ground arith

  none_open : (v : Time) → t ≤ v → v < u → (n : ℕ) → OpenSince w v n → ⊥
  none_open v from until n o = elim (dec_lt t (begin w n)) [
    | yes later ↦
        let le : t / day ≤ n = omega (arith, p.starts) in
        let near : n - t / day < f.offset = omega (arith, f.found, o.begun) in
        let none = f.none_before (n - t / day) (omega arith) near in
        cc (opening_is_fit w t v n o later le)
    | no begun ↦
        let now : OpenSince w t n = record {
          chosen = o.chosen;
          begun = omega arith;
          not_over = omega (arith, o.not_over);
        } in
        let open_now = (contains-at_utc_iff w t p).1 (n, now) in cc
  ]

  opens_at : OpenSince w u (t / day + f.offset)
  opens_at = record {
    chosen = fit_facts.0;
    begun = omega (arith, f.found);
    not_over = omega (arith, f.found, p.lasts);
  }

  next_from_lem : IsNext (at_utc w) t u
  next_from_lem = record {
    not_past = omega (arith, f.found, fit_facts.1);
    is_open = (contains-at_utc_iff w u p).1 (t / day + f.offset, opens_at);
    shut_before = λ v from until. elim (Bool-cases (contains (at_utc w) v)) [
      | inl opened ↦
          let (n, o) = (contains-at_utc_iff w v p).0 opened in absurd (none_open v from until n o)
      | inr closed ↦ closed
    ];
    soon = omega (arith, f.found, f.in_range, p.starts);
  }

pub next_open_opened : (w : Window) (t : Time) → contains w t ≡ true → t ≡ next_open w t
unfolding next_open
next_open_opened w t h = ground arith

pub next_open_closed :
    (w : Window) (t : Time)
    → w.always ≡ false
    → contains w t ≡ false
    → next_from w t 0 8 ≡ next_open w t
unfolding next_open
next_open_closed w t a h = ground arith

pub next_open-at_utc :
    (w : Window) (t : Time) → IsParsed w → IsNext (at_utc w) t (next_open (at_utc w) t)
next_open-at_utc w t p = elim (Bool-cases (contains (at_utc w) t)) [
  | inl opened ↦ subst (IsNext (at_utc w) t) (next_open_opened (at_utc w) t opened) (record {
    not_past = omega arith;
    is_open = opened;
    shut_before = λ v from until. absurd (omega arith);
    soon = omega arith;
  })
  | inr closed ↦
      subst (IsNext (at_utc w) t) (next_open_closed (at_utc w) t p.sometimes closed)
        (next_from_lem w t _ p closed (next_from-fits w t p))
]
