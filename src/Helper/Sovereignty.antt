-- ===== src/Helper/Sovereignty.antt =====
-- internal/helper/helper.go: what a root helper does is what the host's policy allows it.
use hostseal.Base.{
  ◌≡◌, ◌↔◌, inl, inr, refl, sym, ◌∙◌, ap, subst, true, some, List, [], ◌∷◌, Bool-cases, some_inj,
  ok_inj,
}
use hostseal.Agent.Job.{succeeded, refused_by_policy}
use hostseal.Agent.Run.{Request, Response, status_for_exit}
use hostseal.Helper.Perform.{Surroundings, Job, Executor, Helper, answer, perform_with, job_of}
use hostseal.Helper.Outcome.{
  Authorised, Declined, Outcome, unrouted, undecoded, declined, unbuilt, ran, perform_with-Outcome,
}

head_of : {A : Type 0} {x y : A} {xs ys : List A} → x ∷ xs ≡ y ∷ ys → x ≡ y
head_of e = cc

module _ (w : Surroundings) (req : Request) (h : Helper) where
  Outcome-Authorised :
      {r : Response × List Job} (j : Job) (js : List Job)
      → Outcome w req h r
      → r.1 ≡ j ∷ js
      → Authorised w req h j × (js ≡ [])
  Outcome-Authorised j js (unrouted _) e = cc
  Outcome-Authorised j js (undecoded _) e = cc
  Outcome-Authorised j js (declined _) e = cc
  Outcome-Authorised j js (unbuilt _ _) e = cc
  Outcome-Authorised j js (ran f _ a) e = (subst (λ k. Authorised w req h k) (head_of e) a, cc)

  -- A root helper hands a job to its operation only if the request names an operation that this
  -- helper serves, its parameters decode to the ones in the job, and the policy that the helper
  -- itself read from the host's disk (its default if there is no file) allows it; and it hands over
  -- that one job and no other.
  pub perform_with-Authorised :
      (j : Job) (js : List Job)
      → (perform_with h w req).1 ≡ j ∷ js
      → Authorised w req h j × (js ≡ [])
  perform_with-Authorised j js e = Outcome-Authorised j js (perform_with-Outcome w req h) e

  job_unique : {j k : Job} → Authorised w req h j → Authorised w req h k → j ≡ k
  job_unique a b =
      let e : (a.spec, a.params) ≡ (b.spec, b.params) = ok_inj (sym a.decodes ∙ b.decodes) in
      a.job ∙ ap (λ x. job_of req x.1) e ∙ sym b.job

  Outcome-runs :
      {r : Response × List Job} {j : Job} (f : Executor)
      → h.execute ≡ some f
      → Authorised w req h j
      → Outcome w req h r
      → r ≡ (answer (f j), j ∷ [])
  Outcome-runs f e a (unrouted n) = absurd (n a.route)
  Outcome-runs f e a (undecoded d) = absurd (cc (a.decodes, d))
  Outcome-runs f e a (declined d) = absurd (d.declines _ a)
  Outcome-runs f e a (unbuilt n _) = absurd (cc (e, n))
  Outcome-runs f e a (ran g e' b) =
      let same : g ≡ f = some_inj (sym e' ∙ e) in rw (same, job_unique b a) refl

  -- A job that the host's policy allows is done by a helper that has an operation, and the response
  -- is what the operation gave.
  pub Authorised-perform_with :
      (f : Executor) {j : Job}
      → h.execute ≡ some f
      → Authorised w req h j
      → perform_with h w req ≡ (answer (f j), j ∷ [])
  Authorised-perform_with f e a = Outcome-runs f e a (perform_with-Outcome w req h)

  Outcome-succeeded :
      {r : Response × List Job}
      → Outcome w req h r
      → status_for_exit r.0.exit_code ≡ succeeded
      → (f : Executor) × (j : Job) × (h.execute ≡ some f) × Authorised w req h j × ((f j).1 ≡ true)
  unfolding status_for_exit answer
  Outcome-succeeded (unrouted _) e = cc
  Outcome-succeeded (undecoded _) e = cc
  Outcome-succeeded (declined _) e = cc
  Outcome-succeeded (unbuilt _ _) e = cc
  Outcome-succeeded (ran {j} f e' a) e = elim (Bool-cases (f j).1) [
    | inl done ↦ (f, j, e', a, done)
    | inr failed_ ↦ absurd (cc (rw failed_ at e))
  ]

  succeeded-status :
      (f : Executor) (j : Job)
      → (f j).1 ≡ true
      → status_for_exit (answer (f j)).exit_code ≡ succeeded
  unfolding status_for_exit answer
  succeeded-status f j done = rw done refl

  -- The agent reports success for a helper's response exactly if the helper has an operation, the
  -- host's policy allowed the job, and the operation succeeded.
  pub perform_with-succeeded_iff :
      (status_for_exit (perform_with h w req).0.exit_code ≡ succeeded) ↔ (
        (f : Executor) × (j : Job) × (h.execute ≡ some f) × Authorised w req h j × ((f j).1 ≡ true))
  perform_with-succeeded_iff = (
    Outcome-succeeded (perform_with-Outcome w req h),
    λ (f, j, e, a, done). rw (Authorised-perform_with f e a) (succeeded-status f j done),
  )

  Outcome-Declined :
      {r : Response × List Job}
      → Outcome w req h r
      → (status_for_exit r.0.exit_code ≡ refused_by_policy) ↔ (Declined w req h)
  unfolding status_for_exit answer
  Outcome-Declined (unrouted n) = (λ e. cc, λ d. absurd (n d.route))
  Outcome-Declined (undecoded u) = (λ e. cc, λ d. absurd (cc (d.decodes, u)))
  Outcome-Declined (declined d) = (λ e. d, λ d. refl)
  Outcome-Declined (unbuilt _ a) = (λ e. cc, λ d. absurd (d.declines _ a))
  Outcome-Declined (ran {j} f e' a) = (
    λ e. elim (Bool-cases (f j).1) [
      | inl done ↦ absurd (cc (rw done at e))
      | inr failed_ ↦ absurd (cc (rw failed_ at e))
    ],
    λ d. absurd (d.declines _ a),
  )

  -- The agent reports a refusal by policy exactly if the request names an operation of this helper
  -- with parameters that decode, and the policy on the host's disk does not allow it or cannot be
  -- read: no other failure is reported as one.
  pub perform_with-Declined_iff :
      (status_for_exit (perform_with h w req).0.exit_code ≡ refused_by_policy) ↔ Declined w req h
  perform_with-Declined_iff = Outcome-Declined (perform_with-Outcome w req h)
