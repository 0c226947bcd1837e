-- ===== src/Policy/Ranks.antt =====
-- internal/policy/policy.go: the order on what a host allows, and `Min`.
use Prim.Native.Nat.{min}
use hostseal.Base.{
  ℕ, ◌≡◌, ◌↔◌, ◌⊎◌, inl, inr, refl, sym, subst, true, false, arith, str_eq, eq_iff, Bool-cases,
}
use hostseal.Policy.Rules.{Allow, allow_none, allow_security, allow_all, valid, min_allow}

-- The three values that a policy may hold.
pub data IsAllow : Allow → ℕ → Type 0 where
  nothing : IsAllow allow_none 0
  security : IsAllow allow_security 1
  everything : IsAllow allow_all 2

pub valid-IsAllow : (a : Allow) → valid a ≡ true → (k : ℕ) × IsAllow a k
unfolding valid
valid-IsAllow a h = elim (Bool-cases (str_eq a allow_none)) [
  | inl e ↦ (0, subst (λ a. IsAllow a 0) (sym ((eq_iff a allow_none).0 e)) nothing)
  | inr n0 ↦ elim (Bool-cases (str_eq a allow_security)) [
    | inl e ↦ (1, subst (λ a. IsAllow a 1) (sym ((eq_iff a allow_security).0 e)) security)
    | inr n1 ↦ elim (Bool-cases (str_eq a allow_all)) [
      | inl e ↦ (2, subst (λ a. IsAllow a 2) (sym ((eq_iff a allow_all).0 e)) everything)
      | inr n2 ↦ absurd (ground arith)
    ]
  ]
]

-- `Min` of two values is the lower one, and "none" if either is not one of the three.
min_allow-IsAllow :
    {a b : Allow} {j k : ℕ} → IsAllow a j → IsAllow b k → IsAllow (min_allow a b) (min j k)
unfolding min_allow
min_allow-IsAllow nothing nothing = nothing
min_allow-IsAllow nothing security = nothing
min_allow-IsAllow nothing everything = nothing
min_allow-IsAllow security nothing = nothing
min_allow-IsAllow security security = security
min_allow-IsAllow security everything = security
min_allow-IsAllow everything nothing = nothing
min_allow-IsAllow everything security = security
min_allow-IsAllow everything everything = everything

pub min_allow_invalid :
    (a b : Allow) → (valid a ≡ false) ⊎ (valid b ≡ false) → min_allow a b ≡ allow_none
unfolding min_allow
min_allow_invalid a b h = ground arith

security_within :
    {a : Allow} {k : ℕ}
    → IsAllow a k
    → min_allow allow_security a ≡ allow_security
    → (a ≡ allow_security) ⊎ (a ≡ allow_all)
unfolding min_allow
security_within nothing h = ground (arith, eq_iff allow_none allow_security)
security_within security h = inl refl
security_within everything h = inr refl

all_within : {a : Allow} {k : ℕ} → IsAllow a k → min_allow allow_all a ≡ allow_all → a ≡ allow_all
unfolding min_allow
all_within nothing h = h
all_within security h = h
all_within everything h = refl

-- Security updates are within what the host allows exactly if it allows them, or everything.
pub min_allow-eq_security :
    (a : Allow)
    → (min_allow allow_security a ≡ allow_security) ↔ ((a ≡ allow_security) ⊎ (a ≡ allow_all))
min_allow-eq_security a = (to, from)
  where
    to : min_allow allow_security a ≡ allow_security → (a ≡ allow_security) ⊎ (a ≡ allow_all)
    to h = elim (Bool-cases (valid a)) [
      | inl v ↦ security_within (valid-IsAllow a v).1 h
      | inr bad ↦
          ground
            (arith, min_allow_invalid allow_security a (inr bad), eq_iff allow_none allow_security)
    ]

    from : (a ≡ allow_security) ⊎ (a ≡ allow_all) → min_allow allow_security a ≡ allow_security
    from (inl e) = rw e (unfold min_allow in refl)
    from (inr e) = rw e (unfold min_allow in refl)

pub min_allow-eq_all : (a : Allow) → (min_allow allow_all a ≡ allow_all) ↔ (a ≡ allow_all)
min_allow-eq_all a = (to, λ e. rw e (unfold min_allow in refl))
  where
    to : min_allow allow_all a ≡ allow_all → a ≡ allow_all
    to h = elim (Bool-cases (valid a)) [
      | inl v ↦ all_within (valid-IsAllow a v).1 h
      | inr bad ↦
          ground (arith, min_allow_invalid allow_all a (inr bad), eq_iff allow_none allow_all)
    ]

-- `Min` never exceeds either side: of two of the three values it is the lower, and it is "none"
-- where a side is anything else.
pub min_allow-IsMin :
    (a b : Allow)
    → ((j : ℕ) × (k : ℕ) × IsAllow a j × IsAllow b k × IsAllow (min_allow a b) (min j k))
      ⊎ (((valid a ≡ false) ⊎ (valid b ≡ false)) × (min_allow a b ≡ allow_none))
min_allow-IsMin a b = elim (Bool-cases (valid a)) [
  | inr bad ↦ inr (inl bad, min_allow_invalid a b (inl bad))
  | inl va ↦ elim (Bool-cases (valid b)) [
    | inr bad ↦ inr (inr bad, min_allow_invalid a b (inr bad))
    | inl vb ↦
        let (j, x) = valid-IsAllow a va in
        let (k, y) = valid-IsAllow b vb in inl (j, k, x, y, min_allow-IsAllow x y)
  ]
]
