-- ===== src/Agent/Refusals.antt =====
-- internal/agent/execute.go: no refusal of `accept` has the status of a success.
use hostseal.Base.{
  ◌≡◌, ◌≢◌, refl, Bool, true, false, Option, none, some, Result, ok, err, arith, ◌>>=◌, Bool-cases,
  inl, inr, ◌∙◌,
}
use hostseal.Intent.Catalogue.{Spec, decode, DecodeError}
use hostseal.Intent.Params.{Params}
use hostseal.Json.{Raw}
use hostseal.Policy.Time.{Time}
use hostseal.Policy.Decide.{Decision}
use hostseal.Agent.Job.{Job, Status, succeeded}
use hostseal.Agent.Nonces.{NonceStore, NonceError, check}
use hostseal.Agent.Accept.{
  Agent, Moment, Accepted, refusal, unless_refused, encoded, supported, vet, ruled, rule, admit,
  is_guarded, replay, after_vet, accept,
}
use hostseal.Agent.Replay.{decision}

module _ (g : Agent) (j : Job) where
  unless_refused-refused :
      (now : Time) (s : Spec) (a : Accepted) → unless_refused (refusal g j now s) a ≢ err succeeded
  unfolding unless_refused refusal
  unless_refused-refused now s a h = ground arith

  vet_decoded-refused :
      (now : Time) (raw : Raw) (d : Result DecodeError (Spec × Params))
      → (supported d >>= λ f.
          unless_refused (refusal g j now f.0) (record { spec = f.0; params = f.1; raw = raw }))
        ≢ err succeeded
  unfolding supported
  vet_decoded-refused now raw (err e) h = cc
  vet_decoded-refused now raw (ok (s, p)) h =
      unless_refused-refused now s (record { spec = s; params = p; raw = raw }) h

  vet_encoded-refused :
      (now : Time) (o : Option Raw) (r : Result Status Accepted)
      → (encoded o >>= λ raw. supported (decode j.intent raw) >>= λ f.
          unless_refused (refusal g j now f.0) (record { spec = f.0; params = f.1; raw = raw }))
        ≡ r
      → r ≢ err succeeded
  unfolding encoded
  vet_encoded-refused now none r e h = cc
  vet_encoded-refused now (some raw) r e h =
      vet_decoded-refused now raw (decode j.intent raw) (e ∙ h)

  vet-refused : (now : Time) → vet g j now ≢ err succeeded
  unfolding vet
  vet-refused now = vet_encoded-refused now (g.codec.encode j.params) (vet g j now) refl

  ruled-refused : (a : Accepted) (d : Decision) → ruled a d ≢ err succeeded
  unfolding ruled
  ruled-refused a d h = ground arith

  module _ (m : Moment) where
    rule-refused : (a : Accepted) → rule g j m a ≢ err succeeded
    unfolding rule
    rule-refused a h = ruled-refused a (decision g j m a) h

    admit-refused : (a : Accepted) (r : Result NonceError Bool) → admit g j m a r ≢ err succeeded
    unfolding admit
    admit-refused a (err e) h = cc
    admit-refused a (ok true) h = cc
    admit-refused a (ok false) h = rule-refused a h

    after_vet-refused :
        (s : NonceStore) (v : Result Status Accepted)
        → v ≢ err succeeded
        → (after_vet g j m s v).1 ≢ err succeeded
    unfolding after_vet replay
    after_vet-refused s (err e) ne h = ne h
    after_vet-refused s (ok a) ne h =
        let r = (check j.nonce j.not_after m.check_time m.written s).1 in
        elim (Bool-cases (is_guarded j a.spec.class)) [
          | inl e ↦ admit-refused a r (rw e at h)
          | inr e ↦ rule-refused a (rw e at h)
        ]

    pub accept-refused : (s : NonceStore) → (accept g j m s).1 ≢ err succeeded
    unfolding accept
    accept-refused s = after_vet-refused s (vet g j m.now) (vet-refused m.now)
