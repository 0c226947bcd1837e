-- ===== src/Helper/Outcome.antt =====
-- internal/helper/helper.go: how `performWith` can end, and what the agent makes of it.
use hostseal.Base.{
  ◌≡◌, ◌≢◌, ◌⊎◌, inl, inr, refl, sym, ◌∙◌, ap, subst, String, true, false, Option, none, some, List,
  [], ◌∷◌, Result, ok, err, Bool-cases, eq_iff, str_eq, some_inj, ok_inj,
}
use hostseal.Intent.Params.{Params}
use hostseal.Intent.Catalogue.{Spec, decode, DecodeError}
use hostseal.Policy.Rules.{Policy}
use hostseal.Policy.Decide.{decide}
use hostseal.Policy.Load.{LoadError, no_policy_file, bad_policy, load_from}
use hostseal.Agent.Run.{Request, Response}
use hostseal.Helper.Endpoints.{endpoint, exit_usage, exit_refused, exit_not_implemented}
use hostseal.Helper.Perform.{
  Surroundings, Job, Executor, Helper, ruled, authorise_decoded, authorise, plain, job_of, answer,
  execute_with, authorised, routed, perform_with,
}

module _ (w : Surroundings) (req : Request) where
  -- The policy that the helper reads itself, from a file that is there and valid or from no file.
  abbrev pub Loads : Policy → Type 0
  Loads p =
      (load_from w.host w.toml w.file ≡ (p, none))
      ⊎ (load_from w.host w.toml w.file ≡ (p, some no_policy_file))

  abbrev pub Allows : Policy → Spec → Params → Type 0
  Allows p s a =
      (decide w.host p (record { intent = s.name; params = a; issued_at = req.issued_at })
        (record { now = w.now; paused = w.paused })).allowed
      ≡ true

  -- The request names an operation of this helper, its parameters decode, and the policy on the
  -- host's disk allows it: then this is the job to be done.
  pub record Authorised (h : Helper) (j : Job) : Type 0 where
    pub route : endpoint req.intent ≡ some h.socket
    pub spec : Spec
    pub params : Params
    pub policy : Policy
    pub decodes : decode req.intent req.params ≡ ok (spec, params)
    pub loads : Loads policy
    pub allows : Allows policy spec params
    pub job : j ≡ job_of req params

  -- The request is one of this helper's and its parameters decode, but the policy does not allow it
  -- or could not be read.
  pub record Declined (h : Helper) : Type 0 where
    pub route : endpoint req.intent ≡ some h.socket
    pub spec : Spec
    pub params : Params
    pub decodes : decode req.intent req.params ≡ ok (spec, params)
    pub declines : (j : Job) → Authorised h j → ⊥

  -- The ways to end: nothing is done in the first four.
  pub data Outcome (h : Helper) : Response × List Job → Type 0 where
    unrouted : endpoint req.intent ≢ some h.socket → Outcome h (plain exit_usage, [])
    undecoded :
        {e : DecodeError} → decode req.intent req.params ≡ err e → Outcome h (plain exit_usage, [])
    declined : Declined h → Outcome h (plain exit_refused, [])
    unbuilt :
        {j : Job} → h.execute ≡ none → Authorised h j → Outcome h (plain exit_not_implemented, [])
    ran :
        {j : Job} (f : Executor)
        → h.execute ≡ some f
        → Authorised h j
        → Outcome h (answer (f j), j ∷ [])

  ruled-Allows :
      (s : Spec) (a : Params) (l : Policy × Option LoadError)
      → load_from w.host w.toml w.file ≡ l
      → (ruled w req s a l).allowed ≡ true
      → (p : Policy) × Loads p × Allows p s a
  unfolding ruled
  ruled-Allows s a (p, none) e h = (p, inl e, h)
  ruled-Allows s a (p, some no_policy_file) e h = (p, inr e, h)
  ruled-Allows s a (p, some (bad_policy x)) e h = cc

  Allows-ruled :
      (p : Policy) (s : Spec) (a : Params)
      → Loads p
      → Allows p s a
      → (ruled w req s a (load_from w.host w.toml w.file)).allowed ≡ true
  unfolding ruled
  Allows-ruled p s a (inl e) h = rw e h
  Allows-ruled p s a (inr e) h = rw e h

  declined_by :
      {h : Helper} {j : Job} (s : Spec) (a : Params)
      → decode req.intent req.params ≡ ok (s, a)
      → (ruled w req s a (load_from w.host w.toml w.file)).allowed ≡ false
      → Authorised h j
      → ⊥
  declined_by s a d no_ b =
      let same : (b.spec, b.params) ≡ (s, a) = ok_inj (sym b.decodes ∙ d) in
      let allowed =
        subst (λ x. (ruled w req x.0 x.1 (load_from w.host w.toml w.file)).allowed ≡ true) same
          (Allows-ruled b.policy b.spec b.params b.loads b.allows) in
      cc (allowed, no_)

  execute-Outcome :
      (h : Helper) (o : Option Executor) {j : Job}
      → h.execute ≡ o
      → Authorised h j
      → Outcome h (execute_with o j)
  unfolding execute_with
  execute-Outcome h none e a = unbuilt e a
  execute-Outcome h (some f) e a = ran f e a

  decoded-Outcome :
      (h : Helper) (r : Result DecodeError (Spec × Params))
      → endpoint req.intent ≡ some h.socket
      → decode req.intent req.params ≡ r
      → Outcome h (authorised h req (authorise_decoded w req r))
  unfolding authorised authorise_decoded
  decoded-Outcome h (err e) route d = undecoded d
  decoded-Outcome h (ok (s, a)) route d =
      let rule = ruled w req s a (load_from w.host w.toml w.file) in
      elim (Bool-cases rule.allowed) [
        | inl yes_ ↦
            let (p, l, q) = ruled-Allows s a (load_from w.host w.toml w.file) refl yes_ in
            rw yes_ (
              execute-Outcome h h.execute refl (record {
                route = route;
                spec = s;
                params = a;
                policy = p;
                decodes = d;
                loads = l;
                allows = q;
                job = refl;
              }))
        | inr no_ ↦ rw no_ (
            declined (record {
              route = route;
              spec = s;
              params = a;
              decodes = d;
              declines = λ j b. declined_by s a d no_ b;
            }))
      ]

  routed-Outcome :
      (h : Helper) (o : Option String) → endpoint req.intent ≡ o → Outcome h (routed h w req o)
  unfolding routed authorise
  routed-Outcome h none e = unrouted (λ r. cc)
  routed-Outcome h (some s) e = elim (Bool-cases (str_eq s h.socket)) [
    | inl hit ↦ rw hit (
        decoded-Outcome h (decode req.intent req.params) (e ∙ ap some ((eq_iff s h.socket).0 hit))
          refl)
    | inr miss ↦
        rw miss (unrouted (λ r. absurd (cc ((eq_iff s h.socket).1 (some_inj (sym e ∙ r)), miss))))
  ]

  pub perform_with-Outcome : (h : Helper) → Outcome h (perform_with h w req)
  unfolding perform_with
  perform_with-Outcome h = routed-Outcome h (endpoint req.intent) refl
