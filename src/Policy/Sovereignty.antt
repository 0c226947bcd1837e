-- ===== src/Policy/Sovereignty.antt =====
-- internal/policy/decide.go and policy.go: `Decide` permits what the policy states, and a policy
-- that could not be loaded permits nothing privileged.
use hostseal.Base.{
  ℕ, ◌+◌, ◌*◌, ◌≤◌, ◌≡◌, ◌↔◌, ◌⊎◌, inl, inr, refl, sym, subst, true, false, Option, none, some,
  arith, Bool-cases, dec_lt, dec_eq, eq_iff, some_inj, ◌∙◌,
}
use hostseal.Base.Int.{pos}
use hostseal.Intent.Names.{Name, Class, read, routine, destructive, privileged}
use hostseal.Intent.Catalogue.{Spec, lookup, lookup-IsMember}
use hostseal.Intent.Params.{Params}
use hostseal.Policy.Time.{Time, second}
use hostseal.Policy.Rules.{
  Policy, Host, closed, allow_none, allow_security, allow_all, reboot_never, reboot_window,
}
use hostseal.Policy.Age.{max_limit, too_old_iff}
use hostseal.Policy.Decide.{Request, Env, decide, decide_spec, dispatch, too_old}
use hostseal.Policy.Permits.{
  Rule, security, everything, start, stop, restart, reboot, Fresh, member-Rule, Rule-dispatch,
}

abbrev pub IsReadOnly : Name → Type 0
IsReadOnly n = (s : Spec) × (lookup n ≡ some s) × (s.class ≡ read)

-- The host is not paused, and the request only reads, or is fresh and follows a rule.
pub record Permitted (h : Host) (p : Policy) (m : ℕ) (req : Request) (env : Env) : Type 0 where
  pub not_paused : env.paused ≡ false
  pub reason :
      IsReadOnly req.intent
      ⊎ (Fresh m req.issued_at env.now × Rule h p env.now req.intent req.params)

Rule-lookup :
    {h : Host} {p : Policy} {t : Time} {n : Name} {a : Params}
    → Rule h p t n a
    → (s : Spec) × (lookup n ≡ some s) × (privileged s.class ≡ true)
unfolding lookup privileged
Rule-lookup (security m r) = (_, refl, refl)
Rule-lookup (everything m r) = (_, refl, refl)
Rule-lookup (start m) = (_, refl, refl)
Rule-lookup (stop m) = (_, refl, refl)
Rule-lookup (restart m) = (_, refl, refl)
Rule-lookup (reboot r) = (_, refl, refl)

not_read-privileged : (c : Class) → (c ≡ read) ⊎ (privileged c ≡ true)
unfolding privileged
not_read-privileged read = inl refl
not_read-privileged routine = inr refl
not_read-privileged destructive = inr refl

module _ (h : Host) (p : Policy) (req : Request) (env : Env) where
  decide-decide_spec :
      (decide h p req env).allowed ≡ true
      → (env.paused ≡ false) × ((decide_spec h p req env (lookup req.intent)).allowed ≡ true)
  unfolding decide
  decide-decide_spec a = ground arith

  decide_spec-decide :
      env.paused ≡ false
      → (decide_spec h p req env (lookup req.intent)).allowed ≡ true
      → (decide h p req env).allowed ≡ true
  unfolding decide
  decide_spec-decide q a = ground arith

  decide_spec-found :
      (o : Option Spec) → (decide_spec h p req env o).allowed ≡ true → (s : Spec) × (o ≡ some s)
  unfolding decide_spec
  decide_spec-found none a = cc
  decide_spec-found (some s) a = (s, refl)

  decide_spec-dispatch :
      (s : Spec)
      → privileged s.class ≡ true
      → (decide_spec h p req env (some s)).allowed ≡ true
      → (too_old p req.issued_at env.now ≡ false) × ((dispatch h p req env).allowed ≡ true)
  unfolding decide_spec
  decide_spec-dispatch s c a = ground arith

  decide_spec-reads :
      (s : Spec) → s.class ≡ read → (decide_spec h p req env (some s)).allowed ≡ true
  unfolding decide_spec privileged
  decide_spec-reads s c = rw c

  dispatch-decide_spec :
      (s : Spec)
      → privileged s.class ≡ true
      → too_old p req.issued_at env.now ≡ false
      → (dispatch h p req env).allowed ≡ true
      → (decide_spec h p req env (some s)).allowed ≡ true
  unfolding decide_spec
  dispatch-decide_spec s c young a = ground arith

module _ (h : Host) (p : Policy) (m : ℕ) (e : p.max_job_age_seconds ≡ pos m)
    (le : m ≤ max_limit) where
  Fresh-too_old : (i t : Time) → Fresh m i t → too_old p i t ≡ false
  Fresh-too_old i t f = elim (Bool-cases (too_old p i t)) [
    | inr young ↦ young
    | inl old ↦ let (a, b) = (too_old_iff p i t m e le).0 old in absurd (ground arith)
  ]

  too_old-Fresh : (i t : Time) → too_old p i t ≡ false → Fresh m i t
  too_old-Fresh i t young = elim (dec_eq i 0) [
    | yes z ↦ inl z
    | no nz ↦ elim (dec_lt (i + m * second) t) [
      | yes late ↦ absurd (cc ((too_old_iff p i t m e le).1 (nz, late)))
      | no soon ↦ inr (omega arith)
    ]
  ]

  module _ (req : Request) (env : Env) where
    spec-Permitted :
        (s : Spec)
        → lookup req.intent ≡ some s
        → env.paused ≡ false
        → (decide_spec h p req env (some s)).allowed ≡ true
        → Permitted h p m req env
    spec-Permitted s found q a = elim (not_read-privileged s.class) [
      | inl reads ↦ record { not_paused = q; reason = inl (s, found, reads) }
      | inr priv ↦
          let (young, d) = decide_spec-dispatch h p req env s priv a in
          record {
            not_paused = q;
            reason = inr (
              too_old-Fresh req.issued_at env.now young,
              member-Rule h p env req.params req.issued_at (lookup-IsMember req.intent found) priv
                  d,
            );
          }
    ]

    decide-Permitted : (decide h p req env).allowed ≡ true → Permitted h p m req env
    decide-Permitted a =
        let (q, b) = decide-decide_spec h p req env a in
        let (s, found) = decide_spec-found h p req env (lookup req.intent) b in
        spec-Permitted s found q (rw found at b)

    spec-decide :
        (s : Spec)
        → lookup req.intent ≡ some s
        → env.paused ≡ false
        → (decide_spec h p req env (some s)).allowed ≡ true
        → (decide h p req env).allowed ≡ true
    spec-decide s found q a =
        decide_spec-decide h p req env q
          (subst (λ o. (decide_spec h p req env o).allowed ≡ true) (sym found) a)

    Permitted-decide : Permitted h p m req env → (decide h p req env).allowed ≡ true
    Permitted-decide q = elim q.reason [
      | inl (s, found, reads) ↦
          spec-decide s found q.not_paused (decide_spec-reads h p req env s reads)
      | inr (fresh, rule) ↦
          let (s, found, priv) = Rule-lookup rule in
          spec-decide s found q.not_paused (
            dispatch-decide_spec h p req env s priv (Fresh-too_old req.issued_at env.now fresh)
              (Rule-dispatch h p env req.issued_at rule))
    ]

    -- `Decide` allows a request exactly if the host is not paused and the request either only
    -- reads, or is fresh and is one of the six privileged operations under a rule that the host's
    -- own policy grants. The policy's age limit is positive and at most 292 years.
    pub decide-Permitted_iff : ((decide h p req env).allowed ≡ true) ↔ Permitted h p m req env
    decide-Permitted_iff = (decide-Permitted, Permitted-decide)

closed-Rule : {h : Host} {t : Time} {n : Name} {a : Params} → Rule h closed t n a → ⊥
unfolding closed
closed-Rule (security (inl e) r) = ground (arith, eq_iff allow_none allow_security)
closed-Rule (security (inr e) r) = ground (arith, eq_iff allow_none allow_all)
closed-Rule (everything e r) = ground (arith, eq_iff allow_none allow_all)
closed-Rule (start m) = elim m [ ]
closed-Rule (stop m) = elim m [ ]
closed-Rule (restart m) = elim m [ ]
closed-Rule (reboot r) = ground (arith, r.mode, eq_iff reboot_never reboot_window)

-- The policy of a host whose file could not be loaded refuses every operation of the catalogue
-- but those that only read, whatever the request carries and whenever it is made.
pub closed_refuses :
    (h : Host) (req : Request) (env : Env) {s : Spec}
    → lookup req.intent ≡ some s
    → privileged s.class ≡ true
    → (decide h closed req env).allowed ≡ false
closed_refuses h req env {s} found priv = elim (Bool-cases (decide h closed req env).allowed) [
  | inr refused ↦ refused
  | inl a ↦
      let q = decide-Permitted h closed 900 (unfold closed in refl) (omega arith) req env a in
      absurd (elim q.reason [
        | inl (t, found', reads) ↦ read_not_privileged t.class reads (same found' found priv)
        | inr (fresh, rule) ↦ closed-Rule rule
      ])
]
  where
    read_not_privileged : (c : Class) → c ≡ read → privileged c ≡ true → ⊥
    read_not_privileged c e k = unfold privileged in cc (rw e at k)

    same :
        {t u : Spec}
        → lookup req.intent ≡ some t
        → lookup req.intent ≡ some u
        → privileged u.class ≡ true
        → privileged t.class ≡ true
    same f g k = subst (λ v. privileged v.class ≡ true) (some_inj (sym g ∙ f)) k
