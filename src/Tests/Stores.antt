-- ===== src/Tests/Stores.antt =====
-- internal/store: two operators, one host, and a job that needs a release.
use hostseal.Base.{
  ℕ, ◌+◌, ◌≤◌, ◌≡◌, ◌⊎◌, ◌≢◌, ◌↔◌, refl, true, false, some, none, List, [], ◌∷◌, ok, All, arith,
  length,
}
use hostseal.Base.Int.{pos}
use hostseal.Base.Assoc.{get, put}
use hostseal.Policy.Time.{minute}
use hostseal.Agent.Job.{succeeded}
use hostseal.Agent.Run.{ResultRequest}
use hostseal.Store.State.{
  by_id, Tenant, TenantRow, approval_second_person, scoped, Host, Certificate, NewJob, Memory, set,
}
use hostseal.Store.Jobs.{
  create_job, approve_job, claim_jobs, record_result, take_due, find_host, nonce_taken,
  is_unapprovable,
}
use hostseal.Store.Limits.{create_enrolled_host-limit, renew_certificate-limit}
use hostseal.Store.Hosts.{
  active_hosts, stamp_certificate, Renewal, renew_certificate, count_live_certificates,
  create_enrolled_host, has_room, machine_taken,
}
use hostseal.Store.Machine.{Op, enrol, create, approve, heartbeat, steps, step, fresh}
use hostseal.Store.Reachable.{Handed, Noted, claim_jobs-Handed}
use hostseal.Store.AtMostOnce.{claim_jobs-once}
use hostseal.Store.Outcomes.{Answerable, Taken, record_result_iff, Approvable, approve_job_iff}
use hostseal.Tests.Agents.{restart_job}
use hostseal.Tests.Policies.{sunday_at_one}

abbrev pub web_one : Host
web_one = record {
  id = "h1";
  machine_id_hash = "m1";
  last_seen = 0;
  paused = false;
  facts_digest = "";
  policy_digest = "";
  signers_digest = "";
  facts = [];
  policy = [];
  signers = [];
  revoked = false;
}

abbrev pub web_one_cert : Certificate
web_one_cert = record {
  fingerprint = "f1";
  host_id = "h1";
  tenant_id = "";
  not_after = sunday_at_one + minute;
  revoked = false;
  revoked_at = 0;
  superseded_at = 0;
}

abbrev restart_order : NewJob
restart_order = record {
  job = restart_job;
  host_id = "h1";
  created_by = "ada";
  approval_required = true;
  approval_distinct_operator = true;
}

-- The order is given by one operator and released by another.
abbrev morning : List (Tenant × Op)
morning =
    ("default", enrol web_one web_one_cert)
    ∷ ("default", create restart_order)
    ∷ ("default", approve "j1" "grace" sunday_at_one)
    ∷ []

abbrev pub default_row : TenantRow
default_row = record {
  slug = "default";
  created_at = sunday_at_one;
  approval_mode = approval_second_person;
  host_limit = some (pos 5);
  suspended = false;
}

abbrev pub tenants : List (Tenant × TenantRow)
tenants = ("default", default_row) ∷ []

abbrev pub at_work : Memory
at_work = steps (fresh tenants) morning

one_claimed : length (claim_jobs "default" "h1" (pos 0) sunday_at_one at_work).1 ≡ 1
unfolding claim_jobs take_due steps step approve_job get create_job find_host create_enrolled_host
    has_room machine_taken put nonce_taken is_unapprovable set
one_claimed = refl

claim_jobs-Handed_example :
    let (n, js) = claim_jobs "default" "h1" (pos 0) sunday_at_one at_work in
    All (λ j. Handed at_work.records "default" "h1" j × Noted n "default" sunday_at_one j) js
claim_jobs-Handed_example =
    claim_jobs-Handed tenants morning "default" "h1" (pos 0) sunday_at_one (omega arith)
      (tt, (tt, (omega arith, tt)))

-- Between two claims the host reports that it is alive.
claim_jobs-once_example :
    let (m, first) = claim_jobs "default" "h1" (pos 0) sunday_at_one at_work in
    All
      (λ j.
        All
          (λ i. i.id ≢ j.id)
          (claim_jobs "default" "h1"
            (pos 0)
            (sunday_at_one + minute)
            (steps m (("default", heartbeat "h1" sunday_at_one false) ∷ []))).1)
      first
claim_jobs-once_example =
    claim_jobs-once tenants morning (("default", heartbeat "h1" sunday_at_one false) ∷ []) "default"
      "h1" "h1" (pos 0) (pos 0) sunday_at_one (sunday_at_one + minute) (omega arith)
      (tt, (tt, (omega arith, tt))) (tt, tt) (tt, tt)

abbrev restarted : ResultRequest
restarted = record {
  job_id = "j1";
  status = succeeded;
  started_at = sunday_at_one;
  finished_at = sunday_at_one;
  exit_code = pos 0;
  output = [];
  output_truncated = false;
}

-- The host has not claimed the job yet.
record_result_iff_example :
    let (n, done) = record_result "default" "h1" restarted sunday_at_one at_work in
    ((done ≡ ok true) ↔ (
      Answerable "h1" (get scoped ("default", "j1") at_work.records)
      × (at_work.results ("default", "j1") ≡ none)))
    × (((done ≡ ok true) × Taken "default" restarted sunday_at_one at_work n)
        ⊎ ((done ≢ ok true) × (n ≡ at_work)))
record_result_iff_example = record_result_iff "default" "h1" restarted sunday_at_one at_work

approve_job_iff_example :
    ((w : List ℕ) × ((approve_job "default" "j1" "ada" sunday_at_one at_work).1 ≡ ok w))
    ↔ Approvable "ada" (get scoped ("default", "j1") at_work.records)
approve_job_iff_example = approve_job_iff "default" "j1" "ada" sunday_at_one at_work

abbrev pub enrolled : Memory
enrolled = (create_enrolled_host "default" web_one web_one_cert (fresh tenants)).0

limit_of_five : get by_id "default" tenants ≡ some default_row
unfolding get
limit_of_five = refl

web_one_enrolled : (create_enrolled_host "default" web_one web_one_cert (fresh tenants)).1 ≡ ok tt
unfolding create_enrolled_host has_room machine_taken get put stamp_certificate
web_one_enrolled = refl

create_enrolled_host-limit_example :
    (l : ℕ) × (pos 5 ≡ pos l) × (active_hosts "default" enrolled ≤ l)
create_enrolled_host-limit_example =
    create_enrolled_host-limit "default" web_one web_one_cert (fresh tenants) limit_of_five refl
      web_one_enrolled

abbrev renewal : Renewal
renewal = record {
  replacement = record web_one_cert { fingerprint = "f2" };
  presented = "f1";
  supersede_at = sunday_at_one + minute;
  max_live = pos 2;
  now = sunday_at_one;
}

renewed : (renew_certificate "default" renewal enrolled).1 ≡ ok tt
unfolding renew_certificate find_host get create_enrolled_host has_room machine_taken put
    count_live_certificates
renewed = refl

renew_certificate-limit_example :
    (l : ℕ) × (pos 2 ≡ pos l)
    × (count_live_certificates "default" "h1" sunday_at_one
          (renew_certificate "default" renewal enrolled).0
        ≤ l)
renew_certificate-limit_example =
    renew_certificate-limit "default" renewal enrolled (omega arith) renewed
