-- ===== src/Helper/Agreement.antt =====
-- internal/agent/execute.go and internal/helper/helper.go: the agent and the helper decide alike.
use hostseal.Base.{
  ℕ, ◌≤◌, ◌≡◌, ◌⊎◌, inl, inr, refl, subst, true, Option, none, some, List, [], ◌∷◌, Bytes, ok,
  Bool-cases, length, arith,
}
use hostseal.Intent.Names.{Name}
use hostseal.Intent.Catalogue.{
  Spec, decode, IsMember, facts_collect_member, list_upgradable_member, services_list_member,
  check_required_member, apply_security_member, apply_all_member, start_member, stop_member,
  restart_member, reboot_member,
}
use hostseal.Policy.Load.{Decoder, File}
use hostseal.Agent.Job.{Job}
use hostseal.Agent.Nonces.{NonceStore}
use hostseal.Agent.Accept.{Agent, Moment, Accepted, accept}
use hostseal.Agent.Sound.{vet-Vetted}
use hostseal.Agent.Replay.{accept-Passed, accept-IsAuthorised}
use hostseal.Agent.Run.{Request, request_of}
use hostseal.Helper.Endpoints.{endpoint}
use hostseal.Helper.Perform.{
  Surroundings, Job as Task, Executor, Helper, answer, perform_with, job_of, check_peer,
  read_request, max_request_bytes, handled, serve_conn,
}
use hostseal.Helper.Outcome.{Loads, Authorised}
use hostseal.Helper.Sovereignty.{perform_with-Authorised, Authorised-perform_with}

member_name : {n : Name} {s : Spec} → IsMember n s → n ≡ s.name
member_name facts_collect_member = refl
member_name list_upgradable_member = refl
member_name services_list_member = refl
member_name check_required_member = refl
member_name apply_security_member = refl
member_name apply_all_member = refl
member_name start_member = refl
member_name stop_member = refl
member_name restart_member = refl
member_name reboot_member = refl

-- The host of an agent, at the moment at which it accepts a job.
abbrev pub host_of : Agent → Moment → Decoder → File → Surroundings
host_of g m toml file = record {
  host = g.host;
  toml = toml;
  file = file;
  paused = m.paused;
  now = m.now;
}

-- A job that the agent accepts is not refused by the helper that serves its operation: if the file
-- on the host's disk still says what the agent's policy says, and the helper decides at the same
-- moment, the operation is run with the parameters that the agent accepted.
pub accept-perform_with :
    (g : Agent) (j : Job) (m : Moment) (s : NonceStore) (a : Accepted)
    → (accept g j m s).1 ≡ ok a
    → (h : Helper) → endpoint a.spec.name ≡ some h.socket
    → (toml : Decoder) (file : File) → Loads (host_of g m toml file) (request_of j a) g.policy
    → (f : Executor) → h.execute ≡ some f
    → perform_with h (host_of g m toml file) (request_of j a)
      ≡ (answer (f (job_of (request_of j a) a.params)), job_of (request_of j a) a.params ∷ [])
accept-perform_with g j m s a ac h route toml file l f e =
    let p = accept-Passed g j m s ac in
    let v = vet-Vetted g j m.now p.vetted in
    let q = accept-IsAuthorised g j m s ac in
    Authorised-perform_with (host_of g m toml file) (request_of j a) h f e (record {
      route = route;
      spec = a.spec;
      params = a.params;
      policy = g.policy;
      decodes =
          subst (λ n. decode n a.raw ≡ ok (a.spec, a.params)) (member_name q.known) v.decoded_as;
      loads = l;
      allows = p.allowed;
      job = refl;
    })

-- What a connection had to bring for its request to be carried out.
pub record Admitted (agent_uid uid : ℕ) (decoder : Bytes → Option Request) (raw : Bytes)
    (req : Request) : Type 0 where
  pub peer : (uid ≡ 0) ⊎ (uid ≡ agent_uid)
  pub bounded : length raw ≤ max_request_bytes
  pub reads : decoder raw ≡ some req

check_peer_lem :
    (uid agent_uid : ℕ) → check_peer uid agent_uid ≡ true → (uid ≡ 0) ⊎ (uid ≡ agent_uid)
unfolding check_peer
check_peer_lem uid agent_uid h = ground arith

read_request-some :
    (decoder : Bytes → Option Request) (raw : Bytes) {req : Request}
    → read_request decoder raw ≡ some req
    → (length raw ≤ max_request_bytes) × (decoder raw ≡ some req)
unfolding read_request
read_request-some decoder raw h = ground arith

module _ (h : Helper) (w : Surroundings) where
  handled-Authorised :
      (o : Option Request) (j : Task) (js : List Task)
      → (handled h w o).1 ≡ j ∷ js
      → (req : Request) × (o ≡ some req) × Authorised w req h j × (js ≡ [])
  unfolding handled
  handled-Authorised none j js e = cc
  handled-Authorised (some req) j js e =
      let (a, one) = perform_with-Authorised w req h j js e in (req, refl, a, one)

  -- A root helper hands a job to its operation only for a connection from root or from the agent's
  -- account, with a request of at most 64 KiB that names an operation which this helper serves; the
  -- parameters decode to the ones in the job, and the policy that the helper itself read from the
  -- host's disk (its default if there is no file) allows it. It hands over that one job and no other.
  pub serve_conn-Authorised :
      (decoder : Bytes → Option Request) (agent_uid uid : ℕ) (raw : Bytes)
      → (j : Task) (js : List Task) → (serve_conn h w decoder agent_uid uid raw).1 ≡ j ∷ js
      → (req : Request) × Admitted agent_uid uid decoder raw req × Authorised w req h j × (js ≡ [])
  unfolding serve_conn
  serve_conn-Authorised decoder agent_uid uid raw j js e =
      elim (Bool-cases (check_peer uid agent_uid)) [
        | inr other ↦ absurd (cc (rw other at e))
        | inl peer ↦
            let (req, r, a, one) =
              handled-Authorised (read_request decoder raw) j js (rw peer at e) in
            let (b, d) = read_request-some decoder raw r in
            (
              req,
              record { peer = check_peer_lem uid agent_uid peer; bounded = b; reads = d },
              a,
              one,
            )
      ]
