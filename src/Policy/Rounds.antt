-- ===== src/Policy/Rounds.antt =====
-- internal/policy/window.go: the loop over a range of weekdays in `parseDays`.
use hostseal.Base.{
  ℕ, zero, suc, ◌+◌, ◌-◌, ◌%◌, ◌≤◌, ◌<◌, ◌≡◌, ◌≢◌, ◌⊎◌, ◌↔◌, refl, sym, subst, inl, inr, true,
  Bool-cases, ltb, ◌==◌, if◌then◌else◌, arith,
}
use hostseal.Policy.Window.{Days}
use hostseal.Policy.Parse.{mark, mark_range}

-- The loop as it stands: `for d := start; ; d = (d + 1) % 7`, left where `d == end`.
pub data Loop (end : ℕ) : ℕ → Days → Days → Type 0 where
  leaves : {days : Days} → Loop end end days (mark end days)
  goes_on :
      {d : ℕ} {days after : Days}
      → d ≢ end
      → Loop end ((d + 1) % 7) (mark d days) after
      → Loop end d days after

-- How many days on from `d` the next day `i` is.
abbrev pub ahead : ℕ → ℕ → ℕ
ahead d i = if ltb i d then (i + 7) - d else i - d

next_bound : (d : ℕ) → (d + 1) % 7 < 7
next_bound d = omega arith

ahead_next : (d i : ℕ) → d < 7 → i < 7 → d ≢ i → ahead d i ≡ ahead ((d + 1) % 7) i + 1
ahead_next d i a b ne = ground arith

enough-Loop :
    (n d end : ℕ) (days : Days)
    → d < 7
    → end < 7
    → ahead d end < n
    → Loop end d days (mark_range n d end days)
unfolding mark_range
enough-Loop zero d end days a b h = absurd (omega arith)
enough-Loop (suc n) d end days a b h = elim (Bool-cases (d == end)) [
  | inl e ↦
      let same : d ≡ end = ground arith in
      rw e (subst (λ x. Loop end x days (mark x days)) (sym same) leaves)
  | inr e ↦
      let ne : d ≢ end = ground arith in
      let near : ahead ((d + 1) % 7) end < n = (let s = ahead_next d end a b ne in ground arith) in
      rw e (goes_on ne (enough-Loop n ((d + 1) % 7) end (mark d days) (next_bound d) b near))
]

Loop-marks :
    {end d : ℕ} {days after : Days}
    → d < 7
    → end < 7
    → Loop end d days after
    → (i : ℕ) → i < 7
    → (after i ≡ true) ↔ ((days i ≡ true) ⊎ (ahead d i ≤ ahead d end))
Loop-marks {end} {d} {days} a b leaves i c = ground arith
Loop-marks {end} {d} {days} a b (goes_on ne rest) i c =
    let (f, g) = Loop-marks (next_bound d) b rest i c in
    let s = ahead_next d end a b ne in
    elim (Bool-cases (i == d)) [
      | inl e ↦ ((λ h. inr (ground arith)), (λ h. g (inl (rw e refl))))
      | inr e ↦ let t = ahead_next d i a c (ground arith) in ground arith
    ]

-- The loop over a range of weekdays comes to its end, from any day to any day, with the days that
-- `mark_range` gives after its seven rounds; those are the days selected before and the days of the
-- range, which wraps round the end of the week.
pub mark_range-Loop :
    (start end : ℕ) (days : Days)
    → start < 7
    → end < 7
    → Loop end start days (mark_range 7 start end days)
      × ((i : ℕ)
          → i < 7
          → (mark_range 7 start end days i ≡ true)
            ↔ ((days i ≡ true) ⊎ (ahead start i ≤ ahead start end)))
mark_range-Loop start end days a b =
    let run = enough-Loop 7 start end days a b (ground arith) in (run, Loop-marks a b run)
