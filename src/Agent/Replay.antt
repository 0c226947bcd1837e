-- ===== src/Agent/Replay.antt =====
-- internal/agent/execute.go: `accept` as a whole, and why a signed job is accepted only once.
use hostseal.Base.{
  ◌≤◌, ◌≡◌, ◌≢◌, inl, inr, refl, sym, subst, Bool, true, false, Result, ok, err, eq_iff, arith,
  Bool-cases,
}
use hostseal.Intent.Names.{Class, read, routine, destructive, in_profile, privileged}
use hostseal.Intent.Catalogue.{IsMember}
use hostseal.Intent.Safety.{Fits, decode-Fits}
use hostseal.Policy.Decide.{Decision, decide}
use hostseal.Agent.Job.{Job, Status}
use hostseal.Agent.Nonces.{NonceStore, NonceError, check}
use hostseal.Agent.Accept.{
  Agent, Moment, Accepted, is_skewed, is_guarded, effective_issue_time, vet, ruled, rule, admit,
  replay, after_vet, accept,
}
use hostseal.Agent.Sound.{Authorised, is_signed-Authorised, vet-Vetted}

abbrev pub decision : Agent → Job → Moment → Accepted → Decision
decision g j m a =
    decide g.host g.policy
      (record { intent = a.spec.name; params = a.params; issued_at = effective_issue_time j })
      (record { now = m.now; paused = m.paused })

ruled-ok :
    (b : Accepted) (d : Decision) {a : Accepted} → ruled b d ≡ ok a → (b ≡ a) × (d.allowed ≡ true)
unfolding ruled
ruled-ok b d h = ground arith

module _ (g : Agent) (j : Job) (m : Moment) where
  rule-ok :
      (b : Accepted) {a : Accepted}
      → rule g j m b ≡ ok a
      → (b ≡ a) × ((decision g j m a).allowed ≡ true)
  unfolding rule
  rule-ok b {a} h =
      let (e, d) = ruled-ok b (decision g j m b) h in
      (e, subst (λ c. (decision g j m c).allowed ≡ true) e d)

  admit-ok :
      (b : Accepted) (r : Result NonceError Bool) {a : Accepted}
      → admit g j m b r ≡ ok a
      → (r ≡ ok false) × (rule g j m b ≡ ok a)
  unfolding admit
  admit-ok b (err e) h = cc
  admit-ok b (ok true) h = cc
  admit-ok b (ok false) h = (refl, h)

  module _ (s : NonceStore) where
    abbrev pub checked : NonceStore × Result NonceError Bool
    checked = check j.nonce j.not_after m.check_time m.written s

    -- How an accepted job went through the last steps, and the store that it left.
    pub record Passed (t : NonceStore) (a : Accepted) : Type 0 where
      pub vetted : vet g j m.now ≡ ok a
      pub allowed : (decision g j m a).allowed ≡ true
      pub fresh : is_guarded j a.spec.class ≡ true → (checked.1 ≡ ok false) × (t ≡ checked.0)

    replay-Passed :
        (b : Accepted) {a : Accepted}
        → vet g j m.now ≡ ok b
        → (replay g j m s b).1 ≡ ok a
        → Passed (replay g j m s b).0 a
    unfolding replay
    replay-Passed b {a} v h = elim (Bool-cases (is_guarded j b.spec.class)) [
      | inl guarded ↦
          let (new, r) = admit-ok b checked.1 (rw guarded at h) in
          let (e, d) = rule-ok b r in
          rw guarded (
            subst (Passed checked.0) e (record {
              vetted = v;
              allowed = subst (λ c. (decision g j m c).allowed ≡ true) (sym e) d;
              fresh = λ p. (new, refl);
            }))
      | inr plain ↦
          let (e, d) = rule-ok b (rw plain at h) in
          rw plain (
            subst (Passed s) e (record {
              vetted = v;
              allowed = subst (λ c. (decision g j m c).allowed ≡ true) (sym e) d;
              fresh = λ p. absurd (cc (p, plain));
            }))
    ]

    after_vet-Passed :
        (v : Result Status Accepted) {a : Accepted}
        → vet g j m.now ≡ v
        → (after_vet g j m s v).1 ≡ ok a
        → Passed (after_vet g j m s v).0 a
    unfolding after_vet
    after_vet-Passed (err e) f h = cc
    after_vet-Passed (ok b) f h = replay-Passed b f h

    pub accept-Passed : {a : Accepted} → (accept g j m s).1 ≡ ok a → Passed (accept g j m s).0 a
    unfolding accept
    accept-Passed h = after_vet-Passed (vet g j m.now) refl h

-- What an accepted job has shown: the operation is one of the ten and this host executes it, the
-- parameters fit it, local policy allows it, and, if it is privileged, the clock can be trusted,
-- a trusted key signed it for this host, and the window that the signature covers is open.
pub record IsAuthorised (g : Agent) (j : Job) (m : Moment) (a : Accepted) : Type 0 where
  pub known : IsMember j.intent a.spec
  pub fits : Fits j.intent a.spec.class a.params
  pub executes : in_profile g.profile a.spec.name ≡ true
  pub allowed : (decision g j m a).allowed ≡ true
  pub authorised : Authorised g j a.spec.class
  pub clock : privileged a.spec.class ≡ true → is_skewed g.clock_offset ≡ false
  pub in_window :
      privileged a.spec.class ≡ true
      → (j.not_before ≢ 0) × (j.not_before ≤ m.now) × (m.now ≤ j.not_after)

pub Authorised-is_guarded :
    (g : Agent) (j : Job) (c : Class)
    → Authorised g j c
    → privileged c ≡ true
    → is_guarded j c ≡ true
unfolding is_guarded privileged
Authorised-is_guarded g j read h p = cc
Authorised-is_guarded g j routine h p = ground (arith, h.present, eq_iff j.signature "")
Authorised-is_guarded g j destructive h p = ground (arith, h.present, eq_iff j.signature "")

-- `accept` accepts a job only if its operation is one of the catalogue that this host executes, with
-- parameters that fit it, the host's own policy allows it, and, where it is privileged, the clock can
-- be trusted, a key that the host trusts for that class signed this very job for this host, and the
-- window that the signature covers is open.
pub accept-IsAuthorised :
    (g : Agent) (j : Job) (m : Moment) (s : NonceStore) {a : Accepted}
    → (accept g j m s).1 ≡ ok a
    → IsAuthorised g j m a
accept-IsAuthorised g j m s {a} h =
    let p = accept-Passed g j m s h in
    let v = vet-Vetted g j m.now p.vetted in
    let (k, f) = decode-Fits j.intent a.raw v.decoded_as in
    let auth = is_signed-Authorised g j a.spec.class v.signed in
    record {
      known = k;
      fits = f;
      executes = v.executes;
      allowed = p.allowed;
      authorised = auth;
      clock = v.clock;
      in_window = λ priv.
          let (b, e) = v.bounded (Authorised-is_guarded g j a.spec.class auth priv) in
          (b, ground arith, ground arith);
    }
