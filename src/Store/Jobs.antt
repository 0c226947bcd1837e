-- ===== src/Store/Jobs.antt =====
-- internal/store/memory.go: the life of a job. The channels of the long-polls that an operation
-- closes are part of its result.
use hostseal.Base.{
  ℕ, zero, suc, String, Bool, true, false, not, ◌&&◌, ◌||◌, Option, none, some, List, [], ◌∷◌, ◌++◌,
  Result, ok, err, str_eq, leb, if◌then◌else◌,
}
use hostseal.Base.Int.{ℤ, pos, negsuc}
use hostseal.Base.Assoc.{get, put}
use hostseal.Policy.Time.{Time, is_zero}
use hostseal.Agent.Job.{Job}
use hostseal.Agent.Run.{ResultRequest}
use hostseal.Store.State.{
  Tenant, ScopedKey, scoped, by_id, Host, HostRow, JobRecord, NewJob, Memory, StoreError, not_found,
  conflict, set,
}

abbrev pub is_some : {A : Type 0} → Option A → Bool
is_some none = false
is_some (some _) = true

unfoldable pub of_tenant : Tenant → Option HostRow → Option Host
of_tenant t none = none
of_tenant t (some row) = if str_eq row.tenant t then some row.host else none

-- `scopedMemory.host`
unfoldable pub find_host : Tenant → String → Memory → Option Host
unfolding of_tenant
find_host t id m = of_tenant t (get by_id id m.hosts)

abbrev any_row : (ScopedKey × JobRecord → Bool) → List (ScopedKey × JobRecord) → Bool
any_row p [] = false
any_row p (e ∷ es) = p e || any_row p es

-- A signed job of the same host has this nonce.
unfoldable pub nonce_taken : Tenant → NewJob → List (ScopedKey × JobRecord) → Bool
nonce_taken t n rows =
    any_row
      (λ e.
        str_eq e.0.0 t
        && str_eq e.1.host_id n.host_id
        && str_eq e.1.job.nonce n.job.nonce
        && not (str_eq e.1.job.signature ""))
      rows

abbrev pub new_record : NewJob → JobRecord
new_record n = record {
  job = n.job;
  host_id = n.host_id;
  created_at = n.job.issued_at;
  created_by = n.created_by;
  approval_required = n.approval_required;
  approval_distinct_operator = n.approval_distinct_operator;
  approved_at = 0;
  approved_by = "";
  claimed_at = 0;
  completed_at = 0;
}

-- A job goes to the end of its host's queue, and the waiters of the host are taken.
unfoldable pub enqueue : Tenant → String → Job → Memory → Memory
enqueue t host j m = record m {
  jobs = set (t, host) (m.jobs (t, host) ++ (j ∷ [])) m.jobs;
  waiters = λ h. if str_eq host h then [] else m.waiters h;
}

unfoldable pub created : Tenant → NewJob → Memory → Memory
created t n m = record m { records = put scoped (t, n.job.id) (new_record n) m.records }

-- A job that waits for a release is not in the queue at all.
unfoldable pub offered : Tenant → NewJob → Memory → Bool → Memory × Result StoreError (List ℕ)
unfolding created enqueue
offered t n m true = (created t n m, ok [])
offered t n m false = (enqueue t n.host_id n.job (created t n m), ok (m.waiters n.host_id))

unfoldable pub create_job : Tenant → NewJob → Memory → Memory × Result StoreError (List ℕ)
unfolding offered
create_job t n m =
    if not (is_some (find_host t n.host_id m))
    then (m, err not_found)
    else if is_some (get scoped (t, n.job.id) m.records)
    then (m, err conflict)
    else if not (str_eq n.job.signature "") && nonce_taken t n m.records
    then (m, err conflict)
    else offered t n m n.approval_required

-- `ApproveJob` may not release this record.
unfoldable pub is_unapprovable : String → JobRecord → Bool
is_unapprovable approver rec =
    not rec.approval_required
    || not (is_zero rec.approved_at)
    || (rec.approval_distinct_operator && str_eq rec.created_by approver)

abbrev pub approved : String → Time → JobRecord → JobRecord
approved approver now rec = record rec { approved_at = now; approved_by = approver }

unfoldable pub approve_found :
    Tenant
    → String
    → String
    → Time
    → Memory
    → Option JobRecord
    → Memory × Result StoreError (List ℕ)
unfolding enqueue
approve_found t id approver now m none = (m, err not_found)
approve_found t id approver now m (some rec) =
    if is_unapprovable approver rec then (m, err conflict) else (
      enqueue t rec.host_id rec.job
          (record m { records = put scoped (t, id) (approved approver now rec) m.records }),
      ok (m.waiters rec.host_id),
    )

unfoldable pub approve_job :
    Tenant → String → String → Time → Memory → Memory × Result StoreError (List ℕ)
unfolding approve_found
approve_job t id approver now m = approve_found t id approver now m (get scoped (t, id) m.records)

unfoldable pub with_result :
    Option ResultRequest → Option JobRecord → Result StoreError (JobRecord × Option ResultRequest)
with_result r none = err not_found
with_result r (some rec) = ok (rec, r)

-- `GetJob`, with the result that `withResult` attaches.
unfoldable pub get_job :
    Tenant → String → Memory → Result StoreError (JobRecord × Option ResultRequest)
unfolding with_result
get_job t id m = with_result (m.results (t, id)) (get scoped (t, id) m.records)

-- How many jobs one claim may take.
abbrev pub page : ℤ → ℕ
page (negsuc _) = 10
page (pos zero) = 10
page (pos (suc n)) = suc n

-- The loop of `ClaimJobs`: at most so many that are due, in order, and the others, in order.
unfoldable pub take_due : Time → ℕ → List Job → List Job × List Job
take_due now k [] = ([], [])
take_due now zero (j ∷ js) = ([], j ∷ js)
take_due now (suc k) (j ∷ js) =
    let with_it = take_due now k js in
    let without = take_due now (suc k) js in
    if leb j.not_before now then (j ∷ with_it.0, with_it.1) else (without.0, j ∷ without.1)

unfoldable pub stamp_found :
    ScopedKey
    → Time
    → List (ScopedKey × JobRecord)
    → Option JobRecord
    → List (ScopedKey × JobRecord)
stamp_found k now rows none = rows
stamp_found k now rows (some rec) = put scoped k (record rec { claimed_at = now }) rows

-- `ClaimedAt` of each job that was claimed.
unfoldable pub stamp :
    Tenant → Time → List Job → List (ScopedKey × JobRecord) → List (ScopedKey × JobRecord)
unfolding stamp_found
stamp t now [] rows = rows
stamp t now (j ∷ js) rows =
    stamp t now js (stamp_found (t, j.id) now rows (get scoped (t, j.id) rows))

unfoldable pub claim_taken :
    Tenant → String → Time → Memory → List Job × List Job → Memory × List Job
claim_taken t host now m ([], deferred) = (m, [])
claim_taken t host now m (j ∷ js, deferred) = (
  record m { jobs = set (t, host) deferred m.jobs; records = stamp t now (j ∷ js) m.records },
  j ∷ js,
)

unfoldable pub claim_jobs : Tenant → String → ℤ → Time → Memory → Memory × List Job
unfolding claim_taken
claim_jobs t host limit now m =
    claim_taken t host now m (take_due now (page limit) (m.jobs (t, host)))

-- The record may not take a result from this host.
unfoldable pub is_foreign : String → JobRecord → Bool
is_foreign host rec = not (str_eq rec.host_id host) || is_zero rec.claimed_at

unfoldable pub record_found :
    Tenant
    → String
    → ResultRequest
    → Time
    → Memory
    → Option JobRecord
    → Memory × Result StoreError Bool
record_found t host r now m none = (m, err not_found)
record_found t host r now m (some rec) =
    if is_foreign host rec
    then (m, err not_found)
    else if is_some (m.results (t, r.job_id))
    then (m, ok false)
    else (
      record m {
        results = set (t, r.job_id) (some r) m.results;
        records = put scoped (t, r.job_id) (record rec { completed_at = now }) m.records;
      },
      ok true,
    )

unfoldable pub record_result :
    Tenant → String → ResultRequest → Time → Memory → Memory × Result StoreError Bool
unfolding record_found
record_result t host r now m = record_found t host r now m (get scoped (t, r.job_id) m.records)
