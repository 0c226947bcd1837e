-- ===== src/Canonical/Numbers.antt =====
-- internal/canonical/canonical.go: the literals that `writeNumber` takes.
use hostseal.Base.{
  ℕ, ◌+◌, ◌-◌, ◌*◌, ◌≡◌, refl, true, Option, none, some, [], ◌∷◌, ◌==◌, Bytes, is_digit, arith,
  Bool-cases, inl, inr, ok, All, ok_inj, Option-cases, ◌⊎◌,
}
use hostseal.Base.Int.{ℤ}
use hostseal.Json.{digits_from, digits, parse_int64}
use hostseal.Canonical.Write.{integer, write_number, looks_float}
use hostseal.Canonical.Reader.{is_numeric}

abbrev pub Numeric : Bytes → Type 0
Numeric [] = Unit → ⊥
Numeric (c ∷ s) = All (λ d. is_numeric d ≡ true) (c ∷ s)

digits_from-Numeric :
    (n : ℕ) (s : Bytes) {k : ℕ} → digits_from n s ≡ some k → All (λ d. is_numeric d ≡ true) s
unfolding digits_from
digits_from-Numeric n [] h = tt
digits_from-Numeric n (c ∷ s) h = elim (Bool-cases (is_digit c)) [
  | inl e ↦ (ground arith, digits_from-Numeric (n * 10 + (c - b'0')) s (rw e at h))
  | inr e ↦ absurd (cc (rw e at h))
]

digits-Numeric : (s : Bytes) {k : ℕ} → digits s ≡ some k → All (λ d. is_numeric d ≡ true) s
unfolding digits
digits-Numeric [] h = tt
digits-Numeric (c ∷ s) h = digits_from-Numeric 0 (c ∷ s) h

digits-some : (s : Bytes) → (digits s ≡ none) ⊎ ((k : ℕ) × (digits s ≡ some k))
digits-some s = Option-cases (digits s)

parse_int64-Numeric : (s : Bytes) {n : ℤ} → parse_int64 s ≡ some n → Numeric s
unfolding parse_int64
parse_int64-Numeric [] h = cc
parse_int64-Numeric (c ∷ s) h = elim (Bool-cases (c == b'-')) [
  | inl e ↦ elim (digits-some s) [
    | inl none_ ↦ absurd (cc (rw (e, none_) at h))
    | inr (k, d) ↦ (ground arith, digits-Numeric s d)
  ]
  | inr e ↦ elim (digits-some (c ∷ s)) [
    | inl none_ ↦ absurd (cc (rw (e, none_) at h))
    | inr (k, d) ↦ digits-Numeric (c ∷ s) d
  ]
]

integer-ok :
    (s : Bytes) (o : Option ℤ) {t : Bytes} → integer s o ≡ ok t → (n : ℤ) × (o ≡ some n) × (s ≡ t)
unfolding integer
integer-ok s none h = cc
integer-ok s (some n) h = (n, refl, ok_inj h)

-- A number that is written is written as its literal, of digits and a sign.
pub write_number-ok : (s : Bytes) {t : Bytes} → write_number s ≡ ok t → (s ≡ t) × Numeric s
unfolding write_number
write_number-ok s h = elim (Bool-cases (looks_float s)) [
  | inl e ↦ absurd (cc (rw e at h))
  | inr e ↦ let (n, p, q) = integer-ok s (parse_int64 s) (rw e at h) in (q, parse_int64-Numeric s p)
]
